-- ===== src/Floppy/Sensed.antt =====
-- The interrupts that the handler senses by itself, on a controller whose results are open.
use toy_bootloader.Common.{
  ℕ, zero, suc, ◌+◌, ◌<◌, ◌≤◌, ◌≡◌, refl, ap, ◌∙◌, true, none, some, List, [], ◌∷◌, ◌++◌, inl, inr,
  arith, Option-cases,
}
use toy_bootloader.Machine.{Trace, outb, idle, waiting, Handler, ErrT, Env, Machine, do_outb}
use toy_bootloader.Floppy.Types.{CheckInterruptRes}
use toy_bootloader.Floppy.Status.{fpy_check_st0}
use toy_bootloader.Floppy.Irq.{
  floppy_irq, received_of, fpy_cmd_check_interrupt, fpy_interrupt_handler, take_irq, wait_received,
  fpy_wait_irq,
}
use toy_bootloader.Floppy.IrqLaws.{RaisesAfter, RaisesAfter-tail}
use toy_bootloader.Floppy.Polling.{fifo_writes}
use toy_bootloader.Floppy.Controller.{command, result, phase}
use toy_bootloader.Floppy.Sensing.{View, view, At}
use toy_bootloader.Floppy.Showing.{Shows, Ends, whole_sent, one_read}

-- The controller raises its interrupt after a calibration.
abbrev pub Rings : Env → ℕ → Type 0
Rings env bound =
    (t : Trace) (ws : List ℕ) (v : ℕ)
    → phase t ≡ command []
    → fifo_writes t ≡ ws ++ (0x7 ∷ v ∷ [])
    → (k : ℕ) × (k + 1 < bound) × RaisesAfter env k t

-- After the interrupt: the handler has sensed it, with the error `e`.
record Sensed (ws : List ℕ) (e : ErrT) (m : Machine) : Type 0 where
  received : m.fpy_irq_received ≡ received_of e
  state : m.fpy_irq_handle_state ≡ 0
  handler : m.idt_handlers_32 floppy_irq ≡ Handler.fpy_interrupt_handler
  ends : Ends (0x8 ∷ []) (ws ++ (0x8 ∷ [])) e m.trace

module _ (env : Env) (fuel bound : ℕ) (shows : Shows env bound) (small : bound ≤ 1000)
    (enough : bound ≤ fuel) where
  check_interrupt-Ends :
      (u : CheckInterruptRes) (m : Machine) (ws : List ℕ)
      → view m.trace ≡ (command [], ws)
      → (r : CheckInterruptRes) × (t : Trace) × (fpy_cmd_check_interrupt env fuel u m
          ≡ some (r, record m { trace = t }))
        × Ends (0x8 ∷ []) (ws ++ (0x8 ∷ [])) r.error t
  unfolding fpy_cmd_check_interrupt
  check_interrupt-Ends u m ws start =
      let (t, run, seen) =
        whole_sent env fuel bound shows small enough (0x8 ∷ []) true m _ (omega arith)
          (ap (λ (v : View). v.0) start) refl in
      let seen' = seen ∙ ap (λ (v : View). (result (0x8 ∷ []) 2, v.1 ++ (0x8 ∷ []))) start in
      let (v0, t0, run0, p0) =
        one_read env fuel bound shows small enough (record m { trace = t }) _ _ seen' in
      elim (Option-cases (fpy_check_st0 v0)) [
        | inr (x, bad) ↦ (
          record u { error = fpy_check_st0 v0; st0 = v0 },
          t0,
          ground (arith, run, run0, bad),
          inr (x, bad, 1, p0),
        )
        | inl fine ↦
            let (v1, t1, run1, p1) =
              one_read env fuel bound shows small enough (record m { trace = t0 }) _ _ p0 in
            (
              record u { error = fpy_check_st0 v0; st0 = v0; current_cylinder = v1 },
              t1,
              ground (arith, run, run0, fine, run1),
              inl (fine, p1),
            )
      ]

  taken :
      (u : CheckInterruptRes) (t : Trace) (m : Machine) (ws : List ℕ)
      → m.idt_handlers_32 floppy_irq ≡ Handler.fpy_interrupt_handler
      → m.fpy_irq_handle_state ≡ 0
      → view t ≡ (command [], ws)
      → (e : ErrT) × (m' : Machine) × (take_irq env fuel u (record m { trace = t }) ≡ some (tt, m'))
        × Sensed ws e m'
  unfolding take_irq fpy_interrupt_handler do_outb phase
  taken u t m ws h z start =
      let m1 = record m { trace = t; mem = env.dma t m.mem } in
      let (r, t', run, ends) = check_interrupt-Ends u m1 ws start in
      (
        r.error,
        record m1 { trace = outb 0x20 0x20 ∷ t'; fpy_irq_received = received_of r.error },
        ground (arith, h, z, run),
        record { received = refl; state = z; handler = h; ends = ends },
      )

  -- The wait is over.
  over :
      (u : CheckInterruptRes) (n : ℕ) (e : ErrT) (m : Machine)
      → m.fpy_irq_received ≡ received_of e
      → wait_received env fuel u (suc n) m ≡ some (received_of e, m)
  unfolding wait_received
  over u n none m h = ground (arith, h)
  over u n (some x) m h = ground (arith, h)

  waits :
      (u : CheckInterruptRes) (n k : ℕ) (t : Trace) (m : Machine) (ws : List ℕ)
      → k + 1 < n
      → m.fpy_irq_received ≡ waiting
      → m.idt_handlers_32 floppy_irq ≡ Handler.fpy_interrupt_handler
      → m.fpy_irq_handle_state ≡ 0
      → view t ≡ (command [], ws)
      → RaisesAfter env k t
      → (e : ErrT) × (m' : Machine) × (wait_received env fuel u n (record m { trace = t })
          ≡ some (received_of e, m'))
        × Sensed ws e m'
  unfolding wait_received phase
  waits u zero k t m ws lt w h z start up = absurd (omega arith)
  waits u (suc zero) k t m ws lt w h z start up = absurd (omega arith)
  waits u (suc (suc n)) zero t m ws lt w h z start up =
      let (e, m', run, s) = taken u (idle ∷ t) m ws h z start in
      (e, m', ground (arith, w, up.1, run, over u n e m' s.received), s)
  waits u (suc (suc n)) (suc k) t m ws lt w h z start up =
      let (quiet, later) = RaisesAfter-tail env k t up in
      let (e, m', run, s) = waits u (suc n) k (idle ∷ t) m ws (omega arith) w h z start later in
      (e, m', ground (arith, w, quiet, run), s)

  -- The wait after a calibration of the head.
  pub calibration-Ends :
      (rings : Rings env bound) (u : CheckInterruptRes) (m : Machine) (ws : List ℕ) (v : ℕ)
      → At m (ws ++ (0x7 ∷ v ∷ []))
      → (e : ErrT) × (m' : Machine) × (fpy_wait_irq env fuel u m ≡ some (e, m'))
        × ((m'.fpy_irq_received ≡ waiting)
            × (m'.fpy_irq_handle_state ≡ 0)
            × (m'.idt_handlers_32 floppy_irq ≡ Handler.fpy_interrupt_handler))
        × Ends (0x8 ∷ []) ((ws ++ (0x7 ∷ v ∷ [])) ++ (0x8 ∷ [])) e m'.trace
  unfolding fpy_wait_irq
  calibration-Ends rings u m ws v at =
      let (k, lt, up) =
        rings m.trace ws v (ap (λ (v : View). v.0) at.seen) (ap (λ (v : View). v.1) at.seen) in
      let (e, m', run, s) =
        waits u fuel k m.trace m (ws ++ (0x7 ∷ v ∷ [])) (omega arith) at.received at.handler
          at.state at.seen up in
      (
        e,
        record m' { fpy_irq_received = waiting },
        finish e m' run,
        (refl, s.state, s.handler),
        s.ends,
      )
    where
      finish :
          (e : ErrT) (m' : Machine)
          → wait_received env fuel u fuel m ≡ some (received_of e, m')
          → fpy_wait_irq env fuel u m ≡ some (e, record m' { fpy_irq_received = waiting })
      finish none m' run = ground (arith, run)
      finish (some x) m' run = ground (arith, run)
