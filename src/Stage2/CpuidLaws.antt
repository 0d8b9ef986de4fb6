-- ===== src/Stage2/CpuidLaws.antt =====
-- What the processor's identification leaves in the globals.
use toy_bootloader.Common.{
  ℕ, ◌+◌, ◌*◌, ◌/◌, ◌%◌, ◌^◌, ◌≡◌, refl, some, List, [], ◌∷◌, inl, inr, arith, bit_and,
  bit_and_mask, ◌==◌, ltb, if◌then◌else◌, Bool-cases,
}
use toy_bootloader.Real.{RealTrace, cpuid, value, Bios, CpuidInfos, RealMachine}
use toy_bootloader.Stage2.Printing.{Prints, printed, Prints-then, printf-Prints}
use toy_bootloader.Stage2.Cpuid.{
  features, extra_features_c, extra_features_d, print_state, print_states, cpuid_1,
  cpuid_0x80000000, cpuid_0x80000001,
}
use Prim.Native.String.{String}

-- The globals of the other files are as before.
abbrev pub Apart : RealMachine → RealMachine → Type 0
Apart m m' = (m'.props ≡ m.props) × (m'.segments ≡ m.segments)

-- The three updates, one after the other.
pub updated :
    (c : CpuidInfos) (max xc xd line id word : ℕ)
    → let c0 = record c { max_cpuid = max } in
      let c1 =
        if ltb c0.max_cpuid 0x80000001 then c0 else record c0 { extra_1c = xc; extra_1d = xd } in
      record c1 { clflush_cl = line; loc_apic_id = id; proc_features = word } ≡ record {
        clflush_cl = line;
        loc_apic_id = id;
        proc_features = word;
        max_cpuid = max;
        extra_1c = if ltb max 0x80000001 then c.extra_1c else xc;
        extra_1d = if ltb max 0x80000001 then c.extra_1d else xd;
      }
updated c max xc xd line id word = elim (Bool-cases (ltb max 0x80000001)) [
  | inl below ↦ rw below refl
  | inr reached ↦ rw reached refl
]

module _ (env : Bios) where
  print_states-Prints :
      (word : ℕ) (fs : List (String × ℕ)) (m : RealMachine) → Prints (print_states env word fs) m
  unfolding print_states print_state
  print_states-Prints word [] m = record {
    trace = m.trace;
    cursor_pos = m.cursor_pos;
    cur_color = m.cur_color;
    returns = refl;
  }
  print_states-Prints word ((name, bit) ∷ rest) m =
      let d = printf-Prints env _ _ m in
      Prints-then (print_state env name (word / 2 ^ bit % 2 == 1)) (print_states env word rest) m d
        (print_states-Prints word rest (printed m d))

  pub max_asked :
      (m : RealMachine)
      → (t : RealTrace) × (m' : RealMachine) × (cpuid_0x80000000 env m ≡ some (tt, m'))
        × (m'.cpu ≡ record (m.cpu) { max_cpuid = (env.do_cpuid (cpuid 0x80000000 ∷ t)).ax })
        × Apart m m'
  unfolding cpuid_0x80000000
  max_asked m =
      let r = env.do_cpuid (cpuid 0x80000000 ∷ m.trace) in
      let m0 = record m {
        trace = cpuid 0x80000000 ∷ m.trace;
        cpu = record (m.cpu) { max_cpuid = r.ax };
      } in
      let d = printf-Prints env "| max cpuid : %x\n" (value r.ax ∷ []) m0 in
      (m.trace, printed m0 d, d.returns, refl, (refl, refl))

  pub extra_asked :
      (m : RealMachine)
      → (t : RealTrace) × (m' : RealMachine) × (cpuid_0x80000001 env m ≡ some (tt, m'))
        × (let r = env.do_cpuid (cpuid 0x80000001 ∷ t) in
            m'.cpu ≡ (
              if ltb m.cpu.max_cpuid 0x80000001
              then m.cpu
              else record (m.cpu) { extra_1c = r.cx; extra_1d = r.dx }))
        × Apart m m'
  unfolding cpuid_0x80000001
  extra_asked m = elim (Bool-cases (ltb m.cpu.max_cpuid 0x80000001)) [
    | inl denied ↦
        let d = printf-Prints env "| not allowed by cpuid\n" [] m in
        (
          m.trace,
          printed m d,
          ground (arith, denied, d.returns),
          ground (arith, denied),
          (refl, refl),
        )
    | inr allowed ↦
        let r = env.do_cpuid (cpuid 0x80000001 ∷ m.trace) in
        let m0 = record m {
          trace = cpuid 0x80000001 ∷ m.trace;
          cpu = record (m.cpu) { extra_1c = r.cx; extra_1d = r.dx };
        } in
        let d1 = printf-Prints env "| Detected CPU features : \n" [] m0 in
        let m1 = printed m0 d1 in
        let d2 = print_states-Prints r.cx extra_features_c m1 in
        let m2 = printed m1 d2 in
        let d3 = print_states-Prints r.dx extra_features_d m2 in
        let m3 = printed m2 d3 in
        let d4 = printf-Prints env "\n" [] m3 in
        (
          m.trace,
          printed m3 d4,
          ground (arith, allowed, d1.returns, d2.returns, d3.returns, d4.returns),
          ground (arith, allowed),
          (refl, refl),
        )
  ]

  pub features_asked :
      (m : RealMachine)
      → (t : RealTrace) × (m' : RealMachine) × (cpuid_1 env m ≡ some (tt, m'))
        × (let r = env.do_cpuid (cpuid 1 ∷ t) in
            m'.cpu ≡ record (m.cpu) {
              clflush_cl = r.bx / 2 ^ 8 % 2 ^ 4;
              loc_apic_id = r.bx / 2 ^ 24 % 2 ^ 4;
              proc_features = r.cx + r.dx * 2 ^ 32;
            })
        × Apart m m'
  unfolding cpuid_1
  features_asked m =
      let r = env.do_cpuid (cpuid 1 ∷ m.trace) in
      let line = bit_and (r.bx / 2 ^ 8) 0xF in
      let id = bit_and (r.bx / 2 ^ 24) 0xF in
      let m0 = record m {
        trace = cpuid 1 ∷ m.trace;
        cpu = record (m.cpu) {
          clflush_cl = line;
          loc_apic_id = id;
          proc_features = r.cx + r.dx * 2 ^ 32;
        };
      } in
      let d1 =
        printf-Prints env "| CLFLUSH instruction cache line size : %d\n" (value line ∷ []) m0 in
      let m1 = printed m0 d1 in
      let d2 = printf-Prints env "| local APIC ID : %d\n" (value id ∷ []) m1 in
      let m2 = printed m1 d2 in
      let d3 = printf-Prints env "| Detected CPU features : \n" [] m2 in
      let m3 = printed m2 d3 in
      let d4 = print_states-Prints (r.cx + r.dx * 2 ^ 32) features m3 in
      let m4 = printed m3 d4 in
      let d5 = printf-Prints env "\n" [] m4 in
      let low : line ≡ r.bx / 2 ^ 8 % 2 ^ 4 = bit_and_mask 4 (r.bx / 2 ^ 8) in
      let top : id ≡ r.bx / 2 ^ 24 % 2 ^ 4 = bit_and_mask 4 (r.bx / 2 ^ 24) in
      (
        m.trace,
        printed m4 d5,
        ground (arith, d1.returns, d2.returns, d3.returns, d4.returns, d5.returns),
        rw (low, top) refl,
        (refl, refl),
      )
