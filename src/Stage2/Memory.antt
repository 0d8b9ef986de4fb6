-- ===== src/Stage2/Memory.antt =====
-- stage2/mem.c, stage2/misc.c and stage2/strnlen.c.
use toy_bootloader.Common.{
  ℕ, zero, suc, ◌+◌, ◌*◌, ◌^◌, Bool, true, false, ◌||◌, not, some, List, [], ◌∷◌, ◌==◌, u8,
}
use toy_bootloader.Machine.{update}
use toy_bootloader.Real.{RealTrace, value, Bios, R, ◌>>=◌, ◌>>◌, do_int}
use toy_bootloader.Stage2.Screen.{Color, color_char, printf}

-- `struct mem_sec` of shared/mem.h.
pub record MemSec : Type 0 where
  pub base : ℕ
  pub length : ℕ
  pub type : ℕ
  pub acpi3 : ℕ

abbrev pub smap : ℕ
smap = b'S' * 2 ^ 24 + b'M' * 2 ^ 16 + b'A' * 2 ^ 8 + b'P'

abbrev pub carry_value : Bool → ℕ
carry_value true = 1
carry_value false = 0

module _ (env : Bios) where
  unfoldable pub print_mem_sec : MemSec → R (Unit {0})
  print_mem_sec m =
      printf env "[base:0x%lp, length:0x%lx, type:%d]\n"
        (value m.base ∷ value m.length ∷ value m.type ∷ [])

  -- `buffer` says what the BIOS has left in `buf` after a call. The code passes the whole struct to
  -- `%p`, which reads its first 32 bits.
  unfoldable pub set_memory_size : (RealTrace → MemSec) → R (Unit {0})
  unfolding print_mem_sec color_char
  set_memory_size buffer = do
    reply ← do_int env 0x15 (record { ax = 0xE820; bx = 0; cx = 24; dx = smap })
    buf ← λ m. some (buffer m.trace, m)
    elim (reply.carry || not (reply.regs.ax == smap)) [
      | true ↦ do
        printf env "| error, carry=%d && a=%x\n"
            (value (carry_value reply.carry) ∷ value reply.regs.ax ∷ [])
        printf env "\\ buf = %p\n" (value buf.base ∷ [])
      | false ↦ do
        print_mem_sec buf
        printf env "%cTODO:finish memory mapping%c\n"
            (value (color_char Color.red) ∷ value (color_char Color.dark_gray) ∷ [])
    ]

-- `p[i] = c` for the rounds that are left; a `char` keeps the low byte.
unfoldable pub memset_loop : ℕ → ℕ → ℕ → ℕ → (ℕ → ℕ) → ℕ → ℕ
memset_loop zero s c i mem = mem
memset_loop (suc n) s c i mem = memset_loop n s c (i + 1) (update mem (s + i) (u8 c))

-- The memory after `memset(s, c, n)`, which returns `s`.
unfoldable pub memset : ℕ → ℕ → ℕ → (ℕ → ℕ) → ℕ → ℕ
unfolding memset_loop
memset s c n mem = memset_loop n s c 0 mem

-- The bytes from `s[i]` on, and the rounds that are left.
unfoldable pub strnlen_loop : ℕ → List ℕ → ℕ → ℕ
strnlen_loop zero s i = i
strnlen_loop (suc n) [] i = i
strnlen_loop (suc n) (c ∷ s) i = elim (c == 0) [ true ↦ i | false ↦ strnlen_loop n s (i + 1) ]

unfoldable pub strnlen : List ℕ → ℕ → ℕ
unfolding strnlen_loop
strnlen s maxlen = strnlen_loop maxlen s 0
