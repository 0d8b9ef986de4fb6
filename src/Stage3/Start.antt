-- ===== src/Stage3/Start.antt =====
-- `floppy_init` on a controller that starts as the manual has it.
use toy_bootloader.Common.{
  ℕ, ◌≤◌, ◌≡◌, refl, ap, ◌∙◌, true, false, none, some, List, [], ◌∷◌, ◌++◌, arith, ◌==◌,
  append_assoc, All, Bool, u8,
}
use toy_bootloader.Machine.{
  Trace, Event, inb, outb, idle, OnPort, Adds-invisible, Env, Machine, waiting, Handler, do_outb,
  set_interrupt, update,
}
use toy_bootloader.Serial.Defs.{printf}
use toy_bootloader.Serial.Ports.{IsCom, printf-OnLine}
use toy_bootloader.Dma.Chip.{Channel}
use toy_bootloader.Floppy.Types.{CheckInterruptRes, ReadtrackRes}
use toy_bootloader.Floppy.Status.{fpy_fifo, fpy_write_dor, fpy_write_dsr, fpy_motor_enable}
use toy_bootloader.Floppy.Block.{drive_head, fix_drive_data_block, configure_block, head_block}
use toy_bootloader.Floppy.Irq.{fpy_setup_idt, fpy_wait_irq}
use toy_bootloader.Floppy.Commands.{
  fpy_cmd_check_version, fpy_cmd_fix_drive_data, fpy_cmd_configure, fpy_cmd_calibrate_drive,
}
use toy_bootloader.Floppy.Polling.{fifo_writes}
use toy_bootloader.Floppy.Delivered.{IsByte}
use toy_bootloader.Floppy.Fifo.{fpy_send_command}
use toy_bootloader.Floppy.Observed.{puts_all, byte_seen}
use toy_bootloader.Floppy.Controller.{Phase, command, result, put, phase, IsDrive}
use toy_bootloader.Floppy.Reading.{IsReady}
use toy_bootloader.Floppy.Sensing.{
  View, view, put_view, view-Observer, Starts, At, command_sent, result_read, calibrated,
}
use toy_bootloader.Stage3.Drive.{head_params, floppy_init}
use Prim.Native.String.{String}

-- The controller does not see the console.
pub unseen : (e : Event) (t : Trace) → OnPort IsCom e → view (e ∷ t) ≡ view t
unfolding phase
unseen (inb p v) t h = let other : (p == fpy_fifo) ≡ false = ground (arith, h) in rw other refl
unseen (outb p v) t h = let other : (p == fpy_fifo) ≡ false = ground (arith, h) in rw other refl
unseen idle t h = refl

pub logged :
    (env : Env) (line : String) (m : Machine) (ws : List ℕ)
    → At m ws
    → (m' : Machine) × (printf env line [] m ≡ some (tt, m')) × At m' ws
logged env line m ws at =
    let d = printf-OnLine env line [] m in
    (
      record m { is_init = d.init; trace = d.trace },
      d.returns,
      record {
        received = at.received;
        state = at.state;
        handler = at.handler;
        seen = Adds-invisible IsCom view unseen d.adds ∙ at.seen;
      },
    )

-- The registers that start the motor.
pub motor_started :
    (env : Env) (m : Machine) (ws : List ℕ)
    → At m ws
    → (m1 m2 : Machine) × (fpy_write_dsr 3 m ≡ some (tt, m1))
      × (fpy_motor_enable env m1 ≡ some (tt, m2))
      × At m2 ws
unfolding fpy_write_dsr fpy_motor_enable fpy_write_dor do_outb phase
motor_started env m ws at = (
  _,
  _,
  refl,
  refl,
  record { received = at.received; state = at.state; handler = at.handler; seen = at.seen },
)

pub At-IsReady : (m : Machine) (ws : List ℕ) → At m ws → IsReady m
At-IsReady m ws at = record {
  received = at.received;
  handler = at.handler;
  start = ap (λ (v : View). v.0) at.seen;
}

pub At-writes : (m : Machine) (ws ws' : List ℕ) → At m ws → ws ≡ ws' → fifo_writes m.trace ≡ ws'
At-writes m ws ws' at e = ap (λ (v : View). v.1) at.seen ∙ e

module _ (env : Env) (fuel bound : ℕ) {initial : Channel} (disk : ℕ → ℕ → ℕ → ℕ → ℕ)
    (drive : IsDrive env initial bound disk) (starts : Starts env bound) (small : bound ≤ 1000)
    (enough : bound ≤ fuel) where
  version_checked :
      (m : Machine) (ws : List ℕ)
      → At m ws
      → (m' : Machine) × (fpy_cmd_check_version env m ≡ some (none, m')) × At m' (ws ++ (0x10 ∷ []))
  unfolding fpy_cmd_check_version
  version_checked m ws at =
      let (t, run, seen) =
        byte_seen View view put_view view-Observer env bound drive.answers small 0x10 m
          (omega arith) in
      let (t', now, (run', seen')) =
        result_read env fuel bound disk drive starts small enough (record m { trace = t })
          (result (0x10 ∷ []) 1) (ws ++ (0x10 ∷ [])) (seen ∙ ap (λ v. put_view v 0x10) at.seen) in
      let ok = starts.version t' now in
      (
        record m { trace = inb fpy_fifo (u8 (env.read t' fpy_fifo)) ∷ t' },
        ground (arith, run, run', ok),
        record { received = at.received; state = at.state; handler = at.handler; seen = seen' },
      )

  sent :
      (cmd : List ℕ) (mrq : Bool) (m : Machine) (ws : List ℕ)
      → All IsByte cmd
      → puts_all put (command []) cmd ≡ command []
      → At m ws
      → (m' : Machine) × (fpy_send_command env fuel cmd mrq m ≡ some (none, m')) × At m' (ws ++ cmd)
  sent cmd mrq m ws fits ends at =
      let (t, run, seen) =
        command_sent env fuel bound disk drive starts small enough cmd mrq m ws (command []) fits
          ends at.seen in
      (
        record m { trace = t },
        run,
        record { received = at.received; state = at.state; handler = at.handler; seen = seen },
      )

  -- A calibration of a head, and the wait for its interrupt.
  calibrates :
      (u : CheckInterruptRes) (head : ℕ) (m : Machine) (ws : List ℕ)
      → At m ws
      → (m1 m2 : Machine) × (fpy_cmd_calibrate_drive env fuel (head_params env head) m
          ≡ some (none, m1))
        × (fpy_wait_irq env fuel u m1 ≡ some (none, m2))
        × At m2 ((ws ++ (0x7 ∷ drive_head env.props.drive_number head ∷ [])) ++ (0x8 ∷ []))
  unfolding fpy_cmd_calibrate_drive head_block drive_head
  calibrates u head m ws at =
      let v = drive_head env.props.drive_number head in
      let (m1, run1, at1) = sent (0x7 ∷ v ∷ []) false m ws (omega arith) refl at in
      let (m2, run2, at2) =
        calibrated env fuel bound disk drive starts small enough u m1 ws v at1 in
      (m1, m2, run1, run2, at2)

  -- On a drive in good order, whose controller has the version of the driver, raises an interrupt after
  -- each calibration and then reports no error, `floppy_init` returns: it has sent the version command,
  -- the drive data, the configuration and a calibration of each head, each calibration answered by the
  -- sense command of the interrupt handler, and nothing else. It begins and ends with no command under
  -- way and no request to the handler, and the driver is then set up as the copying of sectors needs
  -- it.
  pub floppy_init_lem :
      (u : CheckInterruptRes) (uninit : ReadtrackRes) (m : Machine)
      → m.fpy_irq_handle_state ≡ 0
      → phase m.trace ≡ command []
      → (m' : Machine) × (floppy_init env fuel u uninit m ≡ some (tt, m'))
        × IsReady m'
        × (m'.fpy_irq_handle_state ≡ 0)
        × (fifo_writes m'.trace
            ≡ fifo_writes m.trace
              ++ (0x10
                  ∷ 0x03
                  ∷ 0x85
                  ∷ 0x0A
                  ∷ 0x13
                  ∷ 0
                  ∷ 0x50
                  ∷ 0
                  ∷ 0x07
                  ∷ drive_head env.props.drive_number 0
                  ∷ 0x08
                  ∷ 0x07
                  ∷ drive_head env.props.drive_number 1
                  ∷ 0x08
                  ∷ []))
  unfolding floppy_init fpy_setup_idt set_interrupt fpy_cmd_fix_drive_data fpy_cmd_configure
      fix_drive_data_block configure_block
  floppy_init_lem u uninit m z start =
      let ws = fifo_writes m.trace in
      let m0 = record m {
        fpy_irq_received = waiting;
        idt_handlers_32 = update m.idt_handlers_32 38 Handler.fpy_interrupt_handler;
      } in
      let at0 : At m0 ws = record {
        received = refl;
        state = z;
        handler = ground arith;
        seen = ap (λ (f : Phase). (f, ws)) start;
      } in
      let (m1, run1, at1) = version_checked m0 ws at0 in
      let (m2, run2, at2) = logged env "| floppy : version ok\n" m1 _ at1 in
      let (m3, m4, run3, run4, at4) = motor_started env m2 _ at2 in
      let (m5, run5, at5) = sent (0x3 ∷ 0x85 ∷ 0x0A ∷ []) true m4 _ (omega arith) refl at4 in
      let (m6, run6, at6) = logged env "| floppy : fix drive data ok\n" m5 _ at5 in
      let (m7, run7, at7) = sent (0x13 ∷ 0 ∷ 0x50 ∷ 0 ∷ []) true m6 _ (omega arith) refl at6 in
      let (m8, run8, at8) = logged env "| floppy : configure ok\n" m7 _ at7 in
      let (m9, run9, at9) = logged env "| floppy : start calibrate\n" m8 _ at8 in
      let (m10, m11, run10, run11, at11) = calibrates u 0 m9 _ at9 in
      let (m12, m13, run12, run13, at13) = calibrates u 1 m11 _ at11 in
      let (m14, run14, at14) = logged env "| floppy : calibrate head ok\n" m13 _ at13 in
      (
        m14,
        ground (
          arith, run1, run2, run3, run4, run5, run6, run7, run8, run9, run10, run11, run12, run13,
          run14,
        ),
        At-IsReady m14 _ at14,
        at14.state,
        At-writes m14 _ _ at14 (simp append_assoc),
      )
