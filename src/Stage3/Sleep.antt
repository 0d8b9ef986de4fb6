-- ===== src/Stage3/Sleep.antt =====
-- How many interrupts of the timer `sleep` of stage3/timer.c waits for.
use toy_bootloader.Common.{
  ◌⊎◌, inl, inr, ltb, Bool-cases, ℕ, zero, suc, ◌+◌, ◌^◌, ◌<◌, ◌≤◌, ◌≡◌, refl, Bool, true, false,
  none, some, List, [], ◌∷◌, ◌++◌, arith, u32,
}
use toy_bootloader.Machine.{Env, Machine, Handler, Adds, Adds-refl, Adds-trans}
use toy_bootloader.Serial.Ports.{IsCom, printf-OnLine}
use toy_bootloader.Stage3.Pic.{timer_int, take_timer, sleep_loop, sleep, handle_timer_interrupt}

-- The interrupts among the rounds.
unfoldable pub interrupts : List Bool → ℕ
interrupts [] = 0
interrupts (true ∷ rounds) = suc (interrupts rounds)
interrupts (false ∷ rounds) = interrupts rounds

-- The wait is over: the counter is at 0, and the code has accessed the serial port alone.
pub record Awake (m m' : Machine) : Type 0 where
  pub done : m'.timer ≡ 0
  pub adds : Adds IsCom m.trace m'.trace

-- One interrupt, while the counter is not at 0.
taken :
    (env : Env) (n : ℕ) (m : Machine)
    → m.timer ≡ suc n
    → m.idt_handlers_32 timer_int ≡ Handler.handle_timer_interrupt
    → let line = printf-OnLine env "poc\n" [] m in
      take_timer env m ≡ some (tt, record m { is_init = line.init; trace = line.trace; timer = n })
unfolding take_timer handle_timer_interrupt
taken env n m e h = let line = printf-OnLine env "poc\n" [] m in ground (arith, h, line.returns)

sleep_loop_waits :
    (env : Env) (rounds : List Bool) (n : ℕ) (m : Machine)
    → m.timer ≡ n
    → m.idt_handlers_32 timer_int ≡ Handler.handle_timer_interrupt
    → interrupts rounds < n
    → sleep_loop env rounds m ≡ none
unfolding sleep_loop interrupts
sleep_loop_waits env [] n m e h few = refl
sleep_loop_waits env (pending ∷ rounds) zero m e h few = absurd (omega arith)
sleep_loop_waits env (false ∷ rounds) (suc n) m e h few =
    ground (arith, e, sleep_loop_waits env rounds (suc n) m e h few)
sleep_loop_waits env (true ∷ rounds) (suc n) m e h few =
    let line = printf-OnLine env "poc\n" [] m in
    let m1 = record m { is_init = line.init; trace = line.trace; timer = n } in
    ground (arith, e, taken env n m e h, sleep_loop_waits env rounds n m1 refl h (omega arith))

sleep_loop_returns :
    (env : Env) (rounds : List Bool) (last : Bool) (n : ℕ) (m : Machine)
    → m.timer ≡ n
    → m.idt_handlers_32 timer_int ≡ Handler.handle_timer_interrupt
    → n ≤ interrupts rounds
    → (m' : Machine) × (sleep_loop env (rounds ++ (last ∷ [])) m ≡ some (tt, m')) × Awake m m'
unfolding sleep_loop interrupts
sleep_loop_returns env [] last zero m e h many =
    (m, ground (arith, e), record { done = e; adds = Adds-refl IsCom m.trace })
sleep_loop_returns env [] last (suc n) m e h many = absurd (omega arith)
sleep_loop_returns env (pending ∷ rounds) last zero m e h many =
    (m, ground (arith, e), record { done = e; adds = Adds-refl IsCom m.trace })
sleep_loop_returns env (false ∷ rounds) last (suc n) m e h many =
    let (m', run, awake) = sleep_loop_returns env rounds last (suc n) m e h many in
    (m', ground (arith, e, run), awake)
sleep_loop_returns env (true ∷ rounds) last (suc n) m e h many =
    let line = printf-OnLine env "poc\n" [] m in
    let m1 = record m { is_init = line.init; trace = line.trace; timer = n } in
    let (m', run, awake) = sleep_loop_returns env rounds last n m1 refl h (omega arith) in
    (
      m',
      ground (arith, e, taken env n m e h, run),
      record { done = awake.done; adds = Adds-trans IsCom line.adds awake.adds },
    )

-- For every `i` below 2 ^ 32 - 1 and every sequence of rounds of its loop, with the timer's handler in
-- the table, `sleep` is still waiting after the rounds if at most `i` of them had an interrupt of the
-- timer. If `i + 1` or more had one, it has returned by the next round, with the counter at 0; all that
-- was accessed is the serial port, so no end of interrupt was sent.
pub sleep_lem :
    (env : Env) (rounds : List Bool) (last : Bool) (i : ℕ) (m : Machine)
    → i + 1 < 2 ^ 32
    → m.idt_handlers_32 timer_int ≡ Handler.handle_timer_interrupt
    → ((interrupts rounds ≤ i) × (sleep env rounds i m ≡ none))
      ⊎ ((i < interrupts rounds)
          × (m' : Machine) × (sleep env (rounds ++ (last ∷ [])) i m ≡ some (tt, m'))
          × Awake m m')
unfolding sleep
sleep_lem env rounds last i m h handler =
    let m1 = record m { timer = u32 (i + 1) } in
    elim (Bool-cases (ltb i (interrupts rounds))) [
      | inr few ↦
          let le : interrupts rounds ≤ i = ground (arith, few) in
          inl (le, sleep_loop_waits env rounds (i + 1) m1 (omega arith) handler (omega arith))
      | inl many ↦
          let lt : i < interrupts rounds = ground (arith, many) in
          let (m', run, awake) =
            sleep_loop_returns env rounds last (i + 1) m1 (omega arith) handler (omega arith) in
          inr (lt, m', run, record { done = awake.done; adds = awake.adds })
    ]
