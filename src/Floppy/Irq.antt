-- ===== src/Floppy/Irq.antt =====
-- The interrupt side of shared/floppy.h: the handler, and the handshake through the two globals
-- `fpy_irq_received` and `fpy_irq_handle_state`. Interrupts are taken while the code waits for one.
use toy_bootloader.Common.{ℕ, zero, suc, true, false, none, some, [], ◌∷◌, ◌==◌}
use toy_bootloader.Machine.{
  ErrT, IrqReceived, waiting, received, failed, Handler, idle, Env, M, pure, ◌>>=◌, ◌>>◌, hang,
  do_outb, set_interrupt,
}
use toy_bootloader.Floppy.Types.{cmd_check_int, cmd_code, CheckInterruptRes}
use toy_bootloader.Floppy.Status.{fpy_check_st0}
use toy_bootloader.Floppy.Fifo.{fpy_read_data, fpy_send_command}

abbrev pub floppy_irq : ℕ
floppy_irq = 38

-- `uninit` is what the result held before the call.
unfoldable pub fpy_cmd_check_interrupt : Env → ℕ → CheckInterruptRes → M CheckInterruptRes
fpy_cmd_check_interrupt env fuel uninit = do
  e ← fpy_send_command env fuel (cmd_code cmd_check_int ∷ []) true
  elim e [
    | some x ↦ pure (record uninit { error = some x })
    | none ↦ do
      st0 ← fpy_read_data env
      let res = record uninit { error = fpy_check_st0 st0; st0 = st0 }
      elim (fpy_check_st0 st0) [
        | some x ↦ pure res
        | none ↦ do c ← fpy_read_data env; pure (record res { current_cylinder = c })
      ]
  ]

abbrev pub received_of : ErrT → IrqReceived
received_of (some x) = failed x
received_of none = received

abbrev pub set_received : IrqReceived → M (Unit {0})
set_received r m = some (tt, record m { fpy_irq_received = r })

abbrev pub set_handle_state : ℕ → M (Unit {0})
set_handle_state v m = some (tt, record m { fpy_irq_handle_state = v })

module _ (env : Env) (fuel : ℕ) (uninit : CheckInterruptRes) where
  unfoldable pub fpy_interrupt_handler : M (Unit {0})
  fpy_interrupt_handler = do
    state ← λ m. some (m.fpy_irq_handle_state, m)
    elim (state == 0) [
      | false ↦ do set_handle_state 0; set_received received
      | true ↦ do r ← fpy_cmd_check_interrupt env fuel uninit; set_received (received_of r.error)
    ]
    do_outb 0x20 0x20

  -- The entry of the interrupt table at the controller's line runs; what a transfer left in memory
  -- is there by then. No other function than the driver's returns to the wait.
  unfoldable pub take_irq : M (Unit {0})
  take_irq = do
    handler ← λ m. some (m.idt_handlers_32 floppy_irq, record m { mem = env.dma m.trace m.mem })
    elim handler [ Handler.fpy_interrupt_handler ↦ fpy_interrupt_handler | _ ↦ hang ]

  abbrev pub tick : M (Unit {0})
  tick m = some (tt, record m { trace = idle ∷ m.trace })

  -- `while (!fpy_irq_received);`: in each round the controller may raise its interrupt.
  unfoldable pub wait_received : ℕ → M IrqReceived
  wait_received zero = hang
  wait_received (suc n) = do
    (r, pending) ← λ m. some ((m.fpy_irq_received, env.irq m.trace), m)
    elim r [
      | waiting ↦ do tick; elim pending [ true ↦ take_irq | false ↦ pure tt ]; wait_received n
      | received ↦ pure received
      | failed x ↦ pure (failed x)
    ]

  abbrev pub err_of : IrqReceived → ErrT
  err_of (failed x) = some x
  err_of received = none
  err_of waiting = none

  unfoldable pub fpy_wait_irq : M ErrT
  fpy_wait_irq = do r ← wait_received fuel; set_received waiting; pure (err_of r)

unfoldable pub fpy_prepare_irq_no_handle : M (Unit {0})
fpy_prepare_irq_no_handle = set_handle_state 1

unfoldable pub fpy_setup_idt : M (Unit {0})
fpy_setup_idt = do set_received waiting; set_interrupt floppy_irq Handler.fpy_interrupt_handler
