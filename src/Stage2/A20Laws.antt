-- ===== src/Stage2/A20Laws.antt =====
-- When the address line 20 is taken to be open, and when the keyboard controller is waited for.
use toy_bootloader.Common.{
  ℕ, zero, suc, ◌≡◌, ◌≢◌, refl, false, none, some, [], ◌∷◌, arith, ◌==◌, u8, ◌⊎◌, inl, inr,
  Bool-cases,
}
use toy_bootloader.Real.{RealTrace, int, inb, Bios, RealMachine}
use toy_bootloader.Stage2.Screen.{printf}
use toy_bootloader.Stage2.A20.{a20_int15, a20_keyboard_wait, a20_keyboard, a20}
use toy_bootloader.Stage2.Printing.{printed, printf-Prints}

-- The status of the keyboard controller is never exactly 2.
abbrev pub NeverTwo : Bios → Type 0
NeverTwo env = (t : RealTrace) → u8 (env.port t 0x64) ≢ 2

wait_stuck :
    (env : Bios) (fuel : ℕ) (m : RealMachine)
    → NeverTwo env
    → a20_keyboard_wait env fuel false m ≡ none
unfolding a20_keyboard_wait
wait_stuck env zero m h = refl
wait_stuck env (suc fuel) m h =
    let v = u8 (env.port m.trace 0x64) in
    ground (arith, h m.trace, wait_stuck env fuel (record m { trace = inb 0x64 v ∷ m.trace }) h)

-- The two calls of the BIOS, after the line that is printed before them.
abbrev pub asked : Bios → RealMachine → RealTrace
asked env m =
    int 0x15 (record { ax = 0x2402; bx = 0; cx = 0; dx = 0 })
    ∷ int 0x15 (record { ax = 0x2401; bx = 0; cx = 0; dx = 0 })
    ∷ (printf-Prints env "|| activate a20 with int15 ax=2401\n" [] m).trace

-- The machine after those calls.
abbrev pub after_calls : Bios → RealMachine → RealMachine
after_calls env m =
    let d = printf-Prints env "|| activate a20 with int15 ax=2401\n" [] m in
    record (printed m d) { trace = asked env m }

-- `a20` on a machine whose keyboard controller never shows a status of exactly 2: if AX is 0 after the
-- second call of the BIOS, it does not return, however long it waits; if AX is anything else, an error
-- code in AH included, it returns, and all it has done is to print a line, to make the two calls, and to
-- print the line of the success, in this order.
pub a20_lem :
    (env : Bios) (fuel : ℕ) (m : RealMachine)
    → NeverTwo env
    → (((env.bios (asked env m)).regs.ax ≡ 0) × (a20 env fuel m ≡ none))
      ⊎ (((env.bios (asked env m)).regs.ax ≢ 0)
          × (m' : RealMachine) × (a20 env fuel m ≡ some (tt, m'))
          × (printf env "|\\ success \n" [] (after_calls env m) ≡ some (tt, m')))
unfolding a20 a20_int15 a20_keyboard
a20_lem env fuel m h =
    let d = printf-Prints env "|| activate a20 with int15 ax=2401\n" [] m in
    let m1 = record (printed m d) { trace = asked env m } in
    elim (Bool-cases ((env.bios (asked env m)).regs.ax == 0)) [
      | inl failed ↦
          let d1 = printf-Prints env "|\\ failed\n" [] m1 in
          let m2 = printed m1 d1 in
          let d2 = printf-Prints env "|| activate a20 with keyboard\n" [] m2 in
          inl (
            ground (arith, failed),
            ground (
              arith,
              failed,
              d.returns,
              d1.returns,
              d2.returns,
              wait_stuck env fuel (printed m2 d2) h,
            ),
          )
      | inr other ↦
          let d1 = printf-Prints env "|\\ success \n" [] m1 in
          inr (
            ground (arith, other),
            printed m1 d1,
            ground (arith, other, d.returns, d1.returns),
            d1.returns,
          )
    ]
