-- ===== src/Floppy/IrqLaws.antt =====
-- The handshake between the interrupt handler and `fpy_wait_irq`.
use toy_bootloader.Common.{
  ℕ, zero, suc, ◌+◌, ◌<◌, ◌≡◌, ◌≢◌, refl, true, false, none, some, ◌∷◌, arith,
}
use toy_bootloader.Machine.{
  Trace, outb, idle, waiting, received, Handler, Env, Machine, ◌>>=◌, do_outb,
}
use toy_bootloader.Floppy.Types.{CheckInterruptRes}
use toy_bootloader.Floppy.Irq.{
  fpy_interrupt_handler, take_irq, wait_received, fpy_wait_irq, floppy_irq,
  fpy_prepare_irq_no_handle,
}

-- `n` rounds of the wait.
abbrev pub idles : ℕ → Trace → Trace
idles zero t = t
idles (suc n) t = idles n (idle ∷ t)

module _ (env : Env) where
  -- The controller lets `k` rounds pass and raises its interrupt in the next one.
  abbrev pub RaisesAfter : ℕ → Trace → Type 0
  RaisesAfter k t = ((j : ℕ) → j < k → env.irq (idles j t) ≡ false) × (env.irq (idles k t) ≡ true)

  pub RaisesAfter-tail :
      (k : ℕ) (t : Trace) → RaisesAfter (suc k) t → (env.irq t ≡ false) × RaisesAfter k (idle ∷ t)
  RaisesAfter-tail k t h = (h.0 0 (omega arith), ((λ j lt. h.0 (suc j) (omega arith)), h.1))

  module _ (fuel : ℕ) (r : CheckInterruptRes) where
    -- What the interrupt leaves when the driver asked that the handler does not sense it.
    abbrev pub handled : Trace → Machine → Machine
    handled t m = record m {
      trace = outb 0x20 0x20 ∷ t;
      mem = env.dma t m.mem;
      fpy_irq_handle_state = 0;
      fpy_irq_received = received;
    }

    received_returns :
        (n : ℕ) (m : Machine)
        → m.fpy_irq_received ≡ received
        → wait_received env fuel r (suc n) m ≡ some (received, m)
    unfolding wait_received
    received_returns n m e = ground (arith, e)

    taken :
        (t : Trace) (m : Machine)
        → m.idt_handlers_32 floppy_irq ≡ Handler.fpy_interrupt_handler
        → m.fpy_irq_handle_state ≢ 0
        → take_irq env fuel r (record m { trace = t }) ≡ some (tt, handled t m)
    unfolding take_irq fpy_interrupt_handler do_outb
    taken t m h ne = ground (arith, h, ne)

    waits :
        (n k : ℕ) (t : Trace) (m : Machine)
        → k + 1 < n
        → m.fpy_irq_received ≡ waiting
        → m.idt_handlers_32 floppy_irq ≡ Handler.fpy_interrupt_handler
        → m.fpy_irq_handle_state ≢ 0
        → RaisesAfter k t
        → wait_received env fuel r n (record m { trace = t })
          ≡ some (received, handled (idle ∷ idles k t) m)
    unfolding wait_received
    waits zero k t m lt w h ne up = absurd (omega arith)
    waits (suc zero) k t m lt w h ne up = absurd (omega arith)
    waits (suc (suc n)) zero t m lt w h ne up =
        ground
          (arith, w, up.1, taken (idle ∷ t) m h ne, received_returns n (handled (idle ∷ t) m) refl)
    waits (suc (suc n)) (suc k) t m lt w h ne up =
        let (e, rest) = RaisesAfter-tail k t up in
        ground (arith, w, e, waits (suc n) k (idle ∷ t) m (omega arith) w h ne rest)

    -- The wait, with the handler asked not to sense the interrupt.
    pub fpy_wait_irq_returns :
        (k : ℕ) (m : Machine)
        → k + 1 < fuel
        → m.fpy_irq_received ≡ waiting
        → m.idt_handlers_32 floppy_irq ≡ Handler.fpy_interrupt_handler
        → m.fpy_irq_handle_state ≢ 0
        → RaisesAfter k m.trace
        → fpy_wait_irq env fuel r m
          ≡ some (none, record (handled (idle ∷ idles k m.trace) m) { fpy_irq_received = waiting })
    unfolding fpy_wait_irq
    fpy_wait_irq_returns k m lt w h ne up = ground (arith, waits fuel k m.trace m lt w h ne up)

    -- After `fpy_prepare_irq_no_handle`, with the driver's handler installed and no interrupt left
    -- over, `fpy_wait_irq` returns without an error as soon as the controller raises its interrupt,
    -- if the fuel is two rounds more than the rounds before that: the data of the transfer are in
    -- memory, the end of the interrupt is signalled to the master, no port of the controller is
    -- touched, and both variables of the handshake are back to 0, so that the next wait does not see
    -- this interrupt.
    pub fpy_wait_irq_handshake :
        (k : ℕ) (m : Machine)
        → k + 1 < fuel
        → m.fpy_irq_received ≡ waiting
        → m.idt_handlers_32 floppy_irq ≡ Handler.fpy_interrupt_handler
        → RaisesAfter k m.trace
        → (fpy_prepare_irq_no_handle >>= λ _. fpy_wait_irq env fuel r) m
          ≡ some (
            none,
            record m {
              trace = outb 0x20 0x20 ∷ idle ∷ idles k m.trace;
              mem = env.dma (idle ∷ idles k m.trace) m.mem;
              fpy_irq_handle_state = 0;
              fpy_irq_received = waiting;
            },
          )
    unfolding fpy_wait_irq fpy_prepare_irq_no_handle
    fpy_wait_irq_handshake k m lt w h up = ground (
      arith,
      waits fuel k m.trace (record m { fpy_irq_handle_state = 1 }) lt w h (omega arith) up,
    )
