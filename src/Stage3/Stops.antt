-- ===== src/Stage3/Stops.antt =====
-- `floppy_init` on a controller whose results are open.
use toy_bootloader.Common.{
  ℕ, ◌≤◌, ◌≡◌, refl, ap, ◌∙◌, true, some, List, [], ◌∷◌, ◌++◌, ◌⊎◌, inl, inr, arith, append_assoc,
  Option-cases,
}
use toy_bootloader.Machine.{Error, Env, Machine, waiting, Handler, set_interrupt, update}
use toy_bootloader.Floppy.Types.{CheckInterruptRes, ReadtrackRes}
use toy_bootloader.Floppy.Block.{drive_head, fix_drive_data_block, configure_block}
use toy_bootloader.Floppy.Irq.{fpy_setup_idt}
use toy_bootloader.Floppy.Commands.{
  fpy_cmd_fix_drive_data, fpy_cmd_configure, fpy_cmd_check_version,
}
use toy_bootloader.Floppy.Polling.{fifo_writes}
use toy_bootloader.Floppy.Controller.{Phase, command, phase}
use toy_bootloader.Floppy.Reading.{IsReady}
use toy_bootloader.Floppy.Sensing.{View, At}
use toy_bootloader.Floppy.Sensed.{Rings}
use toy_bootloader.Floppy.Showing.{Shows, Refused}
use toy_bootloader.Stage3.Drive.{floppy_init, cmd_error}
use toy_bootloader.Stage3.Start.{logged, motor_started}
use toy_bootloader.Stage3.Calibrating.{SenseFailed, told, version_asked, sent, calibration_lem}

-- `m'` is the machine after the handler was set in the machine `m`, the version was checked with an
-- error, and the error was reported.
abbrev pub VersionFailed : Env → Machine → Machine → Type 0
VersionFailed env m m' =
    (x : Error) × (m0 m1 : Machine) × (fpy_setup_idt m ≡ some (tt, m0))
    × (fpy_cmd_check_version env m0 ≡ some (some x, m1))
    × (cmd_error env "version" 61 x m1 ≡ some (tt, m'))

module _ (env : Env) (fuel bound : ℕ) (shows : Shows env bound) (rings : Rings env bound)
    (small : bound ≤ 1000) (enough : bound ≤ fuel) (u : CheckInterruptRes) where
  -- The bytes of the whole start, and of its part up to the first sense command.
  abbrev pub set_up : List ℕ
  set_up = 0x10 ∷ 0x03 ∷ 0x85 ∷ 0x0A ∷ 0x13 ∷ 0 ∷ 0x50 ∷ 0 ∷ []

  abbrev pub until_first : List ℕ
  until_first = set_up ++ (0x07 ∷ drive_head env.props.drive_number 0 ∷ 0x08 ∷ [])

  abbrev pub until_second : List ℕ
  until_second = until_first ++ (0x07 ∷ drive_head env.props.drive_number 1 ∷ 0x08 ∷ [])

  at_writes :
      (head line : ℕ) {ws ws' : List ℕ} {m' : Machine}
      → SenseFailed env fuel u head line ws m'
      → ws ≡ ws'
      → SenseFailed env fuel u head line ws' m'
  at_writes head line (x, m1, m2, m3, writes, run1, run2, run3) same =
      (x, m1, m2, m3, writes ∙ same, run1, run2, run3)

  -- On a controller that shows its phase in the status register, answers within a bound that the 1000
  -- polls of the code and the fuel reach, and raises its interrupt after a calibration, whatever its
  -- results say, with no command under way and no request to the interrupt handler, `floppy_init`
  -- returns, and one of these holds. It has sent all its commands, and the driver is set up for the
  -- next. The check of the version has ended with an error, which was reported: nothing but the version
  -- command was sent, and the controller waits for a command. The wait for the interrupt after the
  -- first or the second calibration has ended with an error, which was reported at line 109 or 114:
  -- nothing was sent after the sense command of that wait, and from then on `fpy_send_command`, whatever
  -- its bytes and however many of its calls were refused before, ends with `bad_msr_values` and sends
  -- nothing. This is not said of the check of the version and of the lock, which send their byte
  -- without that function.
  pub floppy_init_stops :
      (uninit : ReadtrackRes) (m : Machine)
      → m.fpy_irq_handle_state ≡ 0
      → phase m.trace ≡ command []
      → (m' : Machine) × (floppy_init env fuel u uninit m ≡ some (tt, m'))
        × ((IsReady m' × (fifo_writes m'.trace ≡ fifo_writes m.trace ++ until_second))
            ⊎ ((VersionFailed env m m'
                  × (phase m'.trace ≡ command [])
                  × (fifo_writes m'.trace ≡ fifo_writes m.trace ++ (0x10 ∷ [])))
                ⊎ (Refused env fuel m'
                    × ((SenseFailed env fuel u 0 109 (fifo_writes m.trace ++ set_up) m'
                          × (fifo_writes m'.trace ≡ fifo_writes m.trace ++ until_first))
                        ⊎ (SenseFailed env fuel u 1 114 (fifo_writes m.trace ++ until_first) m'
                            × (fifo_writes m'.trace ≡ fifo_writes m.trace ++ until_second))))))
  unfolding floppy_init fpy_setup_idt set_interrupt fpy_cmd_fix_drive_data fpy_cmd_configure
      fix_drive_data_block configure_block
  floppy_init_stops uninit m z start =
      let ws = fifo_writes m.trace in
      let m0 = record m {
        fpy_irq_received = waiting;
        idt_handlers_32 = update m.idt_handlers_32 38 Handler.fpy_interrupt_handler;
      } in
      let at0 : At m0 ws = record {
        received = refl;
        state = z;
        handler = ground arith;
        seen = ap (λ (f : Phase). (f, ws)) start;
      } in
      let (e, m1, run1, at1) = version_asked env fuel bound shows rings small enough u m0 ws at0 in
      elim (Option-cases e) [
        | inr (x, bad) ↦
            let (m2, run2, same) = told env "version" 61 x m1 in
            let seen = same ∙ at1.seen in
            (
              m2,
              ground (arith, run1, bad, run2),
              inr (
                  inl (
                    (x, m0, m1, refl, rw (← bad) run1, run2),
                    ap (λ (v : View). v.0) seen,
                    ap (λ (v : View). v.1) seen,
                  )),
            )
        | inl fine ↦
            let (m2, run2, at2) = logged env "| floppy : version ok\n" m1 _ at1 in
            let (m3, m4, run3, run4, at4) = motor_started env m2 _ at2 in
            let (m5, run5, at5) =
              sent env fuel bound shows rings small enough u (0x3 ∷ 0x85 ∷ 0x0A ∷ []) true m4 _
                (omega arith) refl at4 in
            let (m6, run6, at6) = logged env "| floppy : fix drive data ok\n" m5 _ at5 in
            let (m7, run7, at7) =
              sent env fuel bound shows rings small enough u (0x13 ∷ 0 ∷ 0x50 ∷ 0 ∷ []) true m6 _
                (omega arith) refl at6 in
            let (m8, run8, at8) = logged env "| floppy : configure ok\n" m7 _ at7 in
            let (m9, run9, at9) = logged env "| floppy : start calibrate\n" m8 _ at8 in
            let (m10, run10, ends) =
              calibration_lem env fuel bound shows rings small enough u m9 _ at9 in
            (
              m10,
              ground (arith, run1, fine, run2, run3, run4, run5, run6, run7, run8, run9, run10),
              elim ends [
                | inl (ready, writes) ↦ inl (ready, writes ∙ simp append_assoc)
                | inr (refused, inl (failed, writes)) ↦ inr (
                    inr (
                      refused,
                      inl (at_writes 0 109 failed (simp append_assoc), writes ∙ simp append_assoc),
                    ))
                | inr (refused, inr (failed, writes)) ↦ inr (
                    inr (
                      refused,
                      inr (at_writes 1 114 failed (simp append_assoc), writes ∙ simp append_assoc),
                    ))
              ],
            )
      ]
