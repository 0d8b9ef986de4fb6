-- ===== src/Floppy/Frames.antt =====
-- What the driver leaves alone, on any controller: all ports but the controller's eight and the one of
-- the interrupt controller, and the memory that the DMA channel leaves alone.
use toy_bootloader.Common.{
  ℕ, zero, suc, ◌≤◌, ◌<◌, ◌≡◌, refl, Bool, true, false, not, ◌||◌, some, List, [], ◌∷◌, ◌⊎◌, inl,
  inr, arith, ◌==◌,
}
use toy_bootloader.Machine.{
  Trace, IrqReceived, waiting, received, failed, Handler, Adds-refl, idle, Env, Machine, M, pure,
  ◌>>◌, hang, Frame, Frame-event, Keeps, Keeps-goes, Keeps-pure, Keeps-get, Keeps-hang, Keeps->>=,
  Keeps->>!, Keeps-bool, Keeps-error, Keeps-outb, Keeps-inb,
}
use toy_bootloader.Floppy.Types.{CheckInterruptRes}
use toy_bootloader.Floppy.Status.{FpyMsr, fpy_read_status, fpy_check_st0}
use toy_bootloader.Floppy.Fifo.{
  read_data_loop, fpy_read_data, send_byte_loop, fpy_send_command_byte, wait_mrq, send_bytes,
  fpy_send_command,
}
use toy_bootloader.Floppy.Irq.{
  fpy_cmd_check_interrupt, received_of, set_received, set_handle_state, fpy_interrupt_handler,
  take_irq, tick, wait_received, fpy_wait_irq, fpy_prepare_irq_no_handle, floppy_irq, err_of,
}

-- The ports of the driver.
abbrev pub IsFpy : ℕ → Type 0
IsFpy p = ((0x3F0 ≤ p) × (p < 0x3F8)) ⊎ (p ≡ 0x20)

-- A transfer writes inside `W` alone.
abbrev pub DmaWithin : Env → (ℕ → Bool) → Type 0
DmaWithin env W = (t : Trace) (mem : ℕ → ℕ) (j : ℕ) → W j ≡ false → env.dma t mem j ≡ mem j

module _ (env : Env) (W : ℕ → Bool) where
  abbrev pub Safe : {A : Type 0} → M A → Type 0
  Safe p = Keeps IsFpy W p

  fpy_read_status-Safe : Safe (fpy_read_status env)
  unfolding fpy_read_status
  fpy_read_status-Safe =
      Keeps->>= IsFpy W _ _ (Keeps-inb IsFpy W env _ (inl (omega arith)))
        (λ a. Keeps-pure IsFpy W _)

  read_data_loop-Safe : (n : ℕ) → Safe (read_data_loop env n)
  unfolding read_data_loop
  read_data_loop-Safe zero = Keeps-pure IsFpy W _
  read_data_loop-Safe (suc n) = Keeps->>= IsFpy W _ _ fpy_read_status-Safe (λ (msr : FpyMsr).
      Keeps-bool IsFpy W msr.mrq _ _ (Keeps-inb IsFpy W env _ (inl (omega arith)))
        (read_data_loop-Safe n))

  pub fpy_read_data-Safe : Safe (fpy_read_data env)
  unfolding fpy_read_data
  fpy_read_data-Safe = read_data_loop-Safe 1000

  send_byte_loop-Safe : (n c : ℕ) → Safe (send_byte_loop env n c)
  unfolding send_byte_loop
  send_byte_loop-Safe zero c = Keeps-pure IsFpy W _
  send_byte_loop-Safe (suc n) c = Keeps->>= IsFpy W _ _ fpy_read_status-Safe (λ (msr : FpyMsr).
      Keeps-bool IsFpy W msr.mrq _ _
        (Keeps->>= IsFpy W _ _ (Keeps-outb IsFpy W _ c (inl (omega arith)))
          (λ _. Keeps-pure IsFpy W _))
        (send_byte_loop-Safe n c))

  pub fpy_send_command_byte-Safe : (c : ℕ) → Safe (fpy_send_command_byte env c)
  unfolding fpy_send_command_byte
  fpy_send_command_byte-Safe c = send_byte_loop-Safe 1000 c

  wait_mrq-Safe : (fuel : ℕ) → Safe (wait_mrq env fuel)
  unfolding wait_mrq
  wait_mrq-Safe zero = Keeps-hang IsFpy W
  wait_mrq-Safe (suc fuel) = Keeps->>= IsFpy W _ _ fpy_read_status-Safe (λ (msr : FpyMsr).
      Keeps-bool IsFpy W msr.mrq _ _ (Keeps-pure IsFpy W tt) (wait_mrq-Safe fuel))

  send_bytes-Safe : (fuel : ℕ) (msr : FpyMsr) (cmd : List ℕ) → Safe (send_bytes env fuel msr cmd)
  unfolding send_bytes
  send_bytes-Safe fuel msr [] = Keeps-pure IsFpy W _
  send_bytes-Safe fuel msr (c ∷ cs) = Keeps->>= IsFpy W _ _ (wait_mrq-Safe fuel) (λ _.
      Keeps-bool IsFpy W msr.dataio _ _ (Keeps-pure IsFpy W _)
        (Keeps->>! IsFpy W _ _ (fpy_send_command_byte-Safe c) (send_bytes-Safe fuel msr cs)))

  pub fpy_send_command-Safe :
      (fuel : ℕ) (cmd : List ℕ) (mrq : Bool) → Safe (fpy_send_command env fuel cmd mrq)
  unfolding fpy_send_command
  fpy_send_command-Safe fuel cmd mrq = Keeps->>= IsFpy W _ _ fpy_read_status-Safe (λ (msr : FpyMsr).
      Keeps-bool IsFpy W (not msr.mrq || msr.dataio) _ _ (Keeps-pure IsFpy W _) (
        Keeps->>! IsFpy W _ _ (send_bytes-Safe fuel msr cmd) (
          Keeps-bool IsFpy W mrq _ _
            (Keeps->>= IsFpy W _ _ (wait_mrq-Safe fuel) (λ _. Keeps-pure IsFpy W _))
            (Keeps-pure IsFpy W _))))

  Frame-handshake :
      (r : IrqReceived) (v : ℕ) (m : Machine)
      → Frame IsFpy W m (record m { fpy_irq_received = r; fpy_irq_handle_state = v })
  Frame-handshake r v m = record {
    ports = Adds-refl IsFpy m.trace;
    mem = λ j _. refl;
    is_init = refl;
    handlers = refl;
    gates = refl;
    limit = refl;
    timer = refl;
  }

  set_received-Safe : (r : IrqReceived) → Safe (set_received r)
  set_received-Safe r =
      Keeps-goes IsFpy W (set_received r) (λ m. tt) (λ m. record m { fpy_irq_received = r })
        (λ m. refl) (λ m. Frame-handshake r m.fpy_irq_handle_state m)

  set_handle_state-Safe : (v : ℕ) → Safe (set_handle_state v)
  set_handle_state-Safe v =
      Keeps-goes IsFpy W (set_handle_state v) (λ m. tt) (λ m. record m { fpy_irq_handle_state = v })
        (λ m. refl) (λ m. Frame-handshake m.fpy_irq_received v m)

  pub fpy_prepare_irq_no_handle-Safe : Safe fpy_prepare_irq_no_handle
  unfolding fpy_prepare_irq_no_handle
  fpy_prepare_irq_no_handle-Safe = set_handle_state-Safe 1

  module _ (fuel : ℕ) (uninit : CheckInterruptRes) where
    pub fpy_cmd_check_interrupt-Safe : Safe (fpy_cmd_check_interrupt env fuel uninit)
    unfolding fpy_cmd_check_interrupt
    fpy_cmd_check_interrupt-Safe =
        Keeps->>= IsFpy W _ _ (fpy_send_command-Safe fuel (0x8 ∷ []) true) (λ e.
          Keeps-error IsFpy W e _ _ (λ x. Keeps-pure IsFpy W _)
            (Keeps->>= IsFpy W _ _ fpy_read_data-Safe (λ st0.
              Keeps-error IsFpy W (fpy_check_st0 st0) _ _ (λ x. Keeps-pure IsFpy W _)
                (Keeps->>= IsFpy W _ _ fpy_read_data-Safe (λ c. Keeps-pure IsFpy W _)))))

    fpy_interrupt_handler-Safe : Safe (fpy_interrupt_handler env fuel uninit)
    unfolding fpy_interrupt_handler
    fpy_interrupt_handler-Safe =
        Keeps->>= IsFpy W _ _ (Keeps-get IsFpy W (λ (m : Machine). m.fpy_irq_handle_state))
          (λ state.
            Keeps->>= IsFpy W _ _
              (Keeps-bool IsFpy W (state == 0) _ _
                (Keeps->>= IsFpy W _ _ fpy_cmd_check_interrupt-Safe
                  (λ (r : CheckInterruptRes). set_received-Safe (received_of r.error)))
                (Keeps->>= IsFpy W _ _ (set_handle_state-Safe 0) (λ _. set_received-Safe received)))
              (λ _. Keeps-outb IsFpy W 0x20 0x20 (inr refl)))

    module _ (within : DmaWithin env W) where
      transfer-Safe :
          Safe (λ m. some (m.idt_handlers_32 floppy_irq, record m { mem = env.dma m.trace m.mem }))
      transfer-Safe =
          Keeps-goes IsFpy W _ (λ (m : Machine). m.idt_handlers_32 floppy_irq)
            (λ m. record m { mem = env.dma m.trace m.mem }) (λ m. refl)
            (λ m. record {
              ports = Adds-refl IsFpy m.trace;
              mem = λ j out. within m.trace m.mem j out;
              is_init = refl;
              handlers = refl;
              gates = refl;
              limit = refl;
              timer = refl;
            })

      run_handler-Safe :
          (h : Handler)
          → Safe (elim h as (λ _. M (Unit {0})) [
            | Handler.fpy_interrupt_handler ↦ fpy_interrupt_handler env fuel uninit
            | _ ↦ hang
          ])
      run_handler-Safe Handler.fpy_interrupt_handler = fpy_interrupt_handler-Safe
      run_handler-Safe Handler.unset = Keeps-hang IsFpy W
      run_handler-Safe Handler.interrupt_panic = Keeps-hang IsFpy W
      run_handler-Safe Handler.interrupt_none = Keeps-hang IsFpy W
      run_handler-Safe Handler.handle_timer_interrupt = Keeps-hang IsFpy W
      run_handler-Safe Handler.handle_int3 = Keeps-hang IsFpy W

      take_irq-Safe : Safe (take_irq env fuel uninit)
      unfolding take_irq
      take_irq-Safe = Keeps->>= IsFpy W _ _ transfer-Safe (λ h. run_handler-Safe h)

      tick-Safe : Safe (tick env fuel uninit)
      tick-Safe =
          Keeps-goes IsFpy W _ (λ m. tt) (λ m. record m { trace = idle ∷ m.trace }) (λ m. refl)
            (λ m. Frame-event IsFpy W m idle tt)

      wait_received-Safe : (n : ℕ) → Safe (wait_received env fuel uninit n)
      unfolding wait_received
      wait_received-Safe zero = Keeps-hang IsFpy W
      wait_received-Safe (suc n) =
          Keeps->>= IsFpy W _ _
            (Keeps-get IsFpy W (λ (m : Machine). (m.fpy_irq_received, env.irq m.trace)))
            (λ (r, pending). answer (wait_received-Safe n) r pending)
        where
          answer :
              Safe (wait_received env fuel uninit n)
              → (r : IrqReceived) (pending : Bool)
              → Safe (elim r as (λ _. M IrqReceived) [
                | waiting ↦ do
                  tick env fuel uninit
                  elim pending [ true ↦ take_irq env fuel uninit | false ↦ pure tt ]
                  wait_received env fuel uninit n
                | received ↦ pure received
                | failed x ↦ pure (failed x)
              ])
          answer again waiting pending = Keeps->>= IsFpy W _ _ tick-Safe (λ _.
              Keeps->>= IsFpy W _ _
                (Keeps-bool IsFpy W pending _ _ take_irq-Safe (Keeps-pure IsFpy W tt)) (λ _. again))
          answer again received pending = Keeps-pure IsFpy W received
          answer again (failed x) pending = Keeps-pure IsFpy W (failed x)

      pub fpy_wait_irq-Safe : Safe (fpy_wait_irq env fuel uninit)
      unfolding fpy_wait_irq
      fpy_wait_irq-Safe = Keeps->>= IsFpy W _ _ (wait_received-Safe fuel) (λ r.
          Keeps->>= IsFpy W _ _ (set_received-Safe waiting)
            (λ _. Keeps-pure IsFpy W (err_of env fuel uninit r)))
