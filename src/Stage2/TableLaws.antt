-- ===== src/Stage2/TableLaws.antt =====
-- What each function of stage 2's init table does to the globals that the later stages read.
use toy_bootloader.Common.{
  ℕ, ◌≡◌, ◌≢◌, refl, some, List, [], ◌∷◌, inl, inr, arith, ◌==◌, ◌||◌, not, Bool-cases, Steps, done,
  step,
}
use toy_bootloader.Real.{RealTrace, int, value, Bios, RealMachine}
use toy_bootloader.Stage2.Screen.{Color, color_char}
use toy_bootloader.Stage2.Printing.{printed, printf-Prints}
use toy_bootloader.Stage2.Load.{RealInit}
use toy_bootloader.Stage2.LoadLaws.{Shared, shared}
use toy_bootloader.Stage2.Memory.{MemSec, smap, carry_value, print_mem_sec, set_memory_size}
use toy_bootloader.Stage2.A20.{a20, a20_int15}
use toy_bootloader.Stage2.A20Laws.{asked}

-- The BIOS opens the line 20: AX is not 0 after its second call.
abbrev pub OpensLine : Bios → Type 0
OpensLine env = (m : RealMachine) → (env.bios (asked env m)).regs.ax ≢ 0

-- The function was run, between states with these globals.
pub record Ran (f : RealInit) (s s' : Shared) : Type 0 where
  pub from : RealMachine
  pub to : RealMachine
  pub before : shared from ≡ s
  pub after : shared to ≡ s'
  pub run : f.fun from ≡ some (tt, to)

-- What a function that always returns does to the globals.
pub Ran-does :
    (f : RealInit) (Does : Shared → Shared → Type 0) {s s' : Shared}
    → ((m : RealMachine)
        → (m' : RealMachine) × (f.fun m ≡ some (tt, m')) × Does (shared m) (shared m'))
    → Ran f s s'
    → Does s s'
Ran-does f Does h r =
    let (m', run, does) = h r.from in
    let same : m' ≡ r.to = cc in rw (← r.before, ← r.after, ← same) does

pub Steps-head :
    {E : RealInit → Shared → Shared → Type 0} {f : RealInit} {fs : List RealInit} {s s'' : Shared}
    → Steps E (f ∷ fs) s s''
    → (s' : Shared) × E f s s' × Steps E fs s' s''
Steps-head (step f fs s s' s'' e rest) = (s', e, rest)

pub Steps-end : {E : RealInit → Shared → Shared → Type 0} {s s' : Shared} → Steps E [] s s' → s' ≡ s
Steps-end (done s) = refl

module _ (env : Bios) where
  pub memory_asked :
      (buffer : RealTrace → MemSec) (m : RealMachine)
      → (m' : RealMachine) × (set_memory_size env buffer m ≡ some (tt, m')) × (shared m' ≡ shared m)
  unfolding set_memory_size print_mem_sec
  memory_asked buffer m =
      let t = int 0x15 (record { ax = 0xE820; bx = 0; cx = 24; dx = smap }) ∷ m.trace in
      let reply = env.bios t in
      let buf = buffer t in
      let m0 = record m { trace = t } in
      elim (Bool-cases (reply.carry || not (reply.regs.ax == smap))) [
        | inl failed ↦
            let d1 =
              printf-Prints env "| error, carry=%d && a=%x\n"
                (value (carry_value reply.carry) ∷ value reply.regs.ax ∷ []) m0 in
            let m1 = printed m0 d1 in
            let d2 = printf-Prints env "\\ buf = %p\n" (value buf.base ∷ []) m1 in
            (printed m1 d2, ground (arith, failed, d1.returns, d2.returns), refl)
        | inr fine ↦
            let d1 =
              printf-Prints env "[base:0x%lp, length:0x%lx, type:%d]\n"
                (value buf.base ∷ value buf.length ∷ value buf.type ∷ []) m0 in
            let m1 = printed m0 d1 in
            let d2 =
              printf-Prints env "%cTODO:finish memory mapping%c\n"
                (value (color_char Color.red) ∷ value (color_char Color.dark_gray) ∷ []) m1 in
            (printed m1 d2, ground (arith, fine, d1.returns, d2.returns), refl)
      ]

  pub line_opened :
      (fuel : ℕ) (m : RealMachine)
      → OpensLine env
      → (m' : RealMachine) × (a20 env fuel m ≡ some (tt, m')) × (shared m' ≡ shared m)
  unfolding a20 a20_int15
  line_opened fuel m opens =
      let d = printf-Prints env "|| activate a20 with int15 ax=2401\n" [] m in
      let m1 = record (printed m d) { trace = asked env m } in
      let d1 = printf-Prints env "|\\ success \n" [] m1 in
      let yes' = opens m in (printed m1 d1, ground (arith, yes', d.returns, d1.returns), refl)
