-- ===== src/Tests/Driver.antt =====
-- The floppy driver at concrete values.
use toy_bootloader.Common.{
  ℕ, ◌≡◌, ◌≢◌, ◌⊎◌, refl, true, false, none, some, List, [], ◌∷◌, ◌++◌, arith, test_bit,
}
use toy_bootloader.Machine.{
  Trace, inb, outb, idle, Error, ErrT, msr_dataio, Machine, ◌>>=◌, abnormal_termination, do_inb,
  do_outb,
}
use toy_bootloader.Floppy.Status.{fpy_check_st0, fpy_read_status}
use toy_bootloader.Floppy.Fifo.{
  fpy_send_command, send_bytes, wait_mrq, fpy_send_command_byte, send_byte_loop,
}
use toy_bootloader.Floppy.Irq.{fpy_wait_irq, fpy_prepare_irq_no_handle}
use toy_bootloader.Floppy.Check.{fpy_check_st0_lem}
use toy_bootloader.Floppy.Polling.{Answers, fifo_writes, polled}
use toy_bootloader.Floppy.Delivered.{KeepsGlobals}
use toy_bootloader.Floppy.Sending.{fpy_send_command_prefix, fpy_send_command_sends}
use toy_bootloader.Floppy.IrqLaws.{fpy_wait_irq_handshake}
use toy_bootloader.Tests.World.{env, machine, no_result}

abbrev sent : Machine
sent = record machine {
  trace = outb 0x3F5 8 ∷ inb 0x3F4 0x80 ∷ inb 0x3F4 0x80 ∷ inb 0x3F4 0x80 ∷ [];
}

sent_run : fpy_send_command env 10 (0x8 ∷ []) false machine ≡ some (none, sent)
unfolding fpy_send_command fpy_read_status do_inb test_bit send_bytes wait_mrq fpy_send_command_byte
    send_byte_loop do_outb
sent_run = refl

abbrev no_error : ErrT
no_error = none

fpy_send_command_prefix_example :
    (accepted : List ℕ) × (left : List ℕ) × (0x8 ∷ [] ≡ accepted ++ left)
    × (fifo_writes sent.trace ≡ fifo_writes machine.trace ++ accepted)
    × (((no_error ≡ none) × (left ≡ []))
        ⊎ ((x : Error) × (no_error ≡ some x) × (x ≢ msr_dataio) × (left ≢ [])))
    × KeepsGlobals machine sent
fpy_send_command_prefix_example =
    fpy_send_command_prefix env 10 (0x8 ∷ []) false machine (λ p. cc) (omega arith) sent_run

always_ready : Answers env 1
unfolding polled test_bit
always_ready t = (0, omega arith, ((λ j lt. absurd (omega arith)), refl))

fpy_send_command_sends_example :
    (t : Trace) × (fpy_send_command env 5 (0xf ∷ 0 ∷ 3 ∷ []) true machine
      ≡ some (none, record machine { trace = t }))
    × (fifo_writes t ≡ 0xf ∷ 0 ∷ 3 ∷ [])
unfolding test_bit
fpy_send_command_sends_example =
    fpy_send_command_sends env 1 always_ready 5 (0xf ∷ 0 ∷ 3 ∷ []) true machine (omega arith)
      (omega arith) (omega arith) refl refl

fpy_wait_irq_handshake_example :
    (fpy_prepare_irq_no_handle >>= λ _. fpy_wait_irq env 2 no_result) machine
    ≡ some (none, record machine { trace = outb 0x20 0x20 ∷ idle ∷ [] })
fpy_wait_irq_handshake_example =
    fpy_wait_irq_handshake env 2 no_result 0 machine (omega arith) refl refl
      ((λ j lt. absurd (omega arith)), refl)

fpy_check_st0_lem_example : fpy_check_st0 0x40 ≡ some abnormal_termination
fpy_check_st0_lem_example = fpy_check_st0_lem 0x40 (omega arith)
