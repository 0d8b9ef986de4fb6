-- ===== src/Stage2/Cpuid.antt =====
-- What stage 2 asks the processor: stage2/cpuid.c.
use toy_bootloader.Common.{
  ℕ, ◌+◌, ◌*◌, ◌/◌, ◌%◌, ◌^◌, Bool, true, false, List, [], ◌∷◌, some, bit_and, ltb, ◌==◌,
  if◌then◌else◌,
}
use toy_bootloader.Real.{value, text, Bios, CpuidInfos, R, pure, ◌>>=◌, ◌>>◌, do_cpuid}
use toy_bootloader.Stage2.Screen.{printf, Color, color_char}
use toy_bootloader.Stage2.Load.{RealInit}
use Prim.Native.String.{String}

abbrev pub set_cpu : CpuidInfos → R (Unit {0})
set_cpu c m = some (tt, record m { cpu = c })

-- The features that `cpuid_1` prints, each with its place in `struct pfeatures`, a bit-field over ECX
-- and EDX of which the first field is bit 0 of ECX.
abbrev pub features : List (String × ℕ)
features =
    ("rdrand", 0)
    ∷ ("f16c", 1)
    ∷ ("avx", 2)
    ∷ ("osxsave", 3)
    ∷ ("xsave", 4)
    ∷ ("aes", 5)
    ∷ ("tsc_deadline", 6)
    ∷ ("popcnt", 7)
    ∷ ("movbe", 8)
    ∷ ("x2apic", 9)
    ∷ ("sse42", 10)
    ∷ ("sse41", 11)
    ∷ ("dca", 12)
    ∷ ("pcid", 13)
    ∷ ("pdcm", 15)
    ∷ ("xtpr", 16)
    ∷ ("cmpxchg16b", 17)
    ∷ ("fma", 18)
    ∷ ("sdbg", 19)
    ∷ ("cnxt_id", 20)
    ∷ ("ssse3", 21)
    ∷ ("tm2", 22)
    ∷ ("eist", 23)
    ∷ ("smx", 24)
    ∷ ("vmx", 25)
    ∷ ("ds_cpl", 26)
    ∷ ("monitor", 27)
    ∷ ("dtes64", 28)
    ∷ ("pclmulqdq", 29)
    ∷ ("sse3", 30)
    ∷ ("pbe", 32)
    ∷ ("tm", 34)
    ∷ ("htt", 35)
    ∷ ("ss", 36)
    ∷ ("sse2", 37)
    ∷ ("sse", 38)
    ∷ ("fxsr", 39)
    ∷ ("mmx", 40)
    ∷ ("apci", 41)
    ∷ ("ds", 42)
    ∷ ("clfsh", 44)
    ∷ ("psn", 45)
    ∷ ("pse36", 46)
    ∷ ("pat", 47)
    ∷ ("cmov", 48)
    ∷ ("mca", 49)
    ∷ ("pge", 50)
    ∷ ("mtrr", 51)
    ∷ ("sep", 52)
    ∷ ("apic", 54)
    ∷ ("cx8", 55)
    ∷ ("mce", 56)
    ∷ ("pae", 57)
    ∷ ("msr", 58)
    ∷ ("tsc", 59)
    ∷ ("pse", 60)
    ∷ ("de", 61)
    ∷ ("vme", 62)
    ∷ ("fpu", 63)
    ∷ []

abbrev pub extra_features_c : List (String × ℕ)
extra_features_c = ("lahf_sahf_available", 0) ∷ ("lzcnt", 5) ∷ ("prefetchw", 8) ∷ []

abbrev pub extra_features_d : List (String × ℕ)
extra_features_d =
    ("syscall_sysret_64", 11)
    ∷ ("exec_disable_bit", 20)
    ∷ ("has_1Gbit_pages", 26)
    ∷ ("rtdscp_ia32_tsc_aux", 27)
    ∷ ("arch64_available", 29)
    ∷ []

module _ (env : Bios) where
  unfoldable pub print_state : String → Bool → R (Unit {0})
  unfolding color_char
  print_state name enabled = printf env " %s:%c%c%c" (
      text name
      ∷ value (if enabled then color_char Color.green else color_char Color.red)
      ∷ value (if enabled then b'Y' else b'N')
      ∷ value (color_char Color.light_gray)
      ∷ [])

  unfoldable pub print_states : ℕ → List (String × ℕ) → R (Unit {0})
  print_states word [] = pure tt
  print_states word ((name, bit) ∷ rest) = do
    print_state name (word / 2 ^ bit % 2 == 1)
    print_states word rest

  unfoldable pub cpuid_1 : R (Unit {0})
  cpuid_1 = do
    r ← do_cpuid env 1
    c ← λ m. some (m.cpu, m)
    set_cpu (record c {
      clflush_cl = bit_and (r.bx / 2 ^ 8) 0xF;
      loc_apic_id = bit_and (r.bx / 2 ^ 24) 0xF;
      proc_features = r.cx + r.dx * 2 ^ 32;
    })
    printf env "| CLFLUSH instruction cache line size : %d\n"
        (value (bit_and (r.bx / 2 ^ 8) 0xF) ∷ [])
    printf env "| local APIC ID : %d\n" (value (bit_and (r.bx / 2 ^ 24) 0xF) ∷ [])
    printf env "| Detected CPU features : \n" []
    print_states (r.cx + r.dx * 2 ^ 32) features
    printf env "\n" []

  unfoldable pub cpuid_0x80000000 : R (Unit {0})
  cpuid_0x80000000 = do
    r ← do_cpuid env 0x80000000
    c ← λ m. some (m.cpu, m)
    set_cpu (record c { max_cpuid = r.ax })
    printf env "| max cpuid : %x\n" (value r.ax ∷ [])

  unfoldable pub cpuid_0x80000001 : R (Unit {0})
  cpuid_0x80000001 = do
    c ← λ m. some (m.cpu, m)
    elim (ltb c.max_cpuid 0x80000001) [
      | true ↦ printf env "| not allowed by cpuid\n" []
      | false ↦ do
        r ← do_cpuid env 0x80000001
        set_cpu (record c { extra_1c = r.cx; extra_1d = r.dx })
        printf env "| Detected CPU features : \n" []
        print_states r.cx extra_features_c
        print_states r.dx extra_features_d
        printf env "\n" []
    ]

  abbrev pub max_entry : RealInit
  max_entry = record { fun = cpuid_0x80000000; name = "cpuid_0x80000000"; file = "cpuid.c" }

  abbrev pub extra_entry : RealInit
  extra_entry = record { fun = cpuid_0x80000001; name = "cpuid_0x80000001"; file = "cpuid.c" }

  abbrev pub features_entry : RealInit
  features_entry = record { fun = cpuid_1; name = "cpuid_1"; file = "cpuid.c" }

  -- `INIT_ORDERED` of stage2/cpuid.c.
  unfoldable pub cpuid_entries : List RealInit
  cpuid_entries = max_entry ∷ extra_entry ∷ features_entry ∷ []
