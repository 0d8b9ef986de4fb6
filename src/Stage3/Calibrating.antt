-- ===== src/Stage3/Calibrating.antt =====
-- The pieces of `floppy_init` on a controller whose results are open.
use toy_bootloader.Common.{
  ℕ, ◌≤◌, ◌≡◌, refl, ap, ◌∙◌, Bool, false, none, some, List, [], ◌∷◌, ◌++◌, ◌⊎◌, inl, inr, arith,
  ◌==◌, All, if◌then◌else◌,
}
use toy_bootloader.Machine.{
  Error, ErrT, Env, Machine, M, Adds-invisible, bad_version, number, text, message,
}
use toy_bootloader.Serial.Ports.{IsCom, printf-OnLine}
use toy_bootloader.Floppy.Types.{CheckInterruptRes}
use toy_bootloader.Floppy.Block.{drive_head, head_block}
use toy_bootloader.Floppy.Irq.{fpy_wait_irq}
use toy_bootloader.Floppy.Fifo.{fpy_send_command}
use toy_bootloader.Floppy.Commands.{fpy_cmd_check_version, fpy_cmd_calibrate_drive}
use toy_bootloader.Floppy.Polling.{fifo_writes}
use toy_bootloader.Floppy.Delivered.{IsByte}
use toy_bootloader.Floppy.Observed.{puts_all}
use toy_bootloader.Floppy.Controller.{command, result, put}
use toy_bootloader.Floppy.Reading.{IsReady}
use toy_bootloader.Floppy.Phases.{asked}
use toy_bootloader.Floppy.Sensing.{View, view, At}
use toy_bootloader.Floppy.Sensed.{Rings, calibration-Ends}
use toy_bootloader.Floppy.Showing.{Shows, Refused, whole_sent, fpy_send_command-Refused}
use toy_bootloader.Stage3.Drive.{or_error, log, head_params, cmd_error}
use toy_bootloader.Stage3.Start.{unseen, logged, At-IsReady, At-writes}
use Prim.Native.String.{String}

-- The report of an error: it returns, and the controller does not see it.
pub told :
    (env : Env) (cmd : String) (line : ℕ) (x : Error) (m : Machine)
    → (m' : Machine) × (cmd_error env cmd line x m ≡ some (tt, m')) × (view m'.trace ≡ view m.trace)
unfolding cmd_error
told env cmd line x m =
    let d =
      printf-OnLine env "| floppy : command `%s` failed (l.%u), got error : `%s`\n"
        (text cmd ∷ number line ∷ message x ∷ []) m in
    (_, d.returns, Adds-invisible IsCom view unseen d.adds)

module _ (env : Env) (fuel : ℕ) (u : CheckInterruptRes) where
  -- `m'` is the machine after a calibration of a head, for which `ws` had been sent, whose wait for the
  -- interrupt has ended with an error, and after the report of that error.
  abbrev pub SenseFailed : ℕ → ℕ → List ℕ → Machine → Type 0
  SenseFailed head line ws m' =
      (x : Error) × (m1 m2 m3 : Machine) × (fifo_writes m1.trace ≡ ws)
      × (fpy_cmd_calibrate_drive env fuel (head_params env head) m1 ≡ some (none, m2))
      × (fpy_wait_irq env fuel u m2 ≡ some (some x, m3))
      × (cmd_error env "wait_irq" line x m3 ≡ some (tt, m'))

module _ (env : Env) (fuel bound : ℕ) (shows : Shows env bound) (rings : Rings env bound)
    (small : bound ≤ 1000) (enough : bound ≤ fuel) (u : CheckInterruptRes) where
  pub version_asked :
      (m : Machine) (ws : List ℕ)
      → At m ws
      → (e : ErrT) × (m' : Machine) × (fpy_cmd_check_version env m ≡ some (e, m'))
        × At m' (ws ++ (0x10 ∷ []))
  unfolding fpy_cmd_check_version
  version_asked m ws at =
      let (w, t0, t, run0, run, seen) =
        asked env fuel bound shows small enough u 0x10 m (omega arith) refl
          (ap (λ (v : View). v.0) at.seen) in
      (
        (if w == 0x90 then none else some bad_version),
        record m { trace = t },
        ground (arith, run0, run),
        record {
          received = at.received;
          state = at.state;
          handler = at.handler;
          seen = seen ∙ ap (λ (v : View). (command [], v.1 ++ (0x10 ∷ []))) at.seen;
        },
      )

  pub sent :
      (cmd : List ℕ) (mrq : Bool) (m : Machine) (ws : List ℕ)
      → All IsByte cmd
      → puts_all put (command []) cmd ≡ command []
      → At m ws
      → (m' : Machine) × (fpy_send_command env fuel cmd mrq m ≡ some (none, m')) × At m' (ws ++ cmd)
  sent cmd mrq m ws fits ends at =
      let (t, run, seen) =
        whole_sent env fuel bound shows small enough cmd mrq m _ fits
          (ap (λ (v : View). v.0) at.seen) ends in
      (
        record m { trace = t },
        run,
        record {
          received = at.received;
          state = at.state;
          handler = at.handler;
          seen = seen ∙ ap (λ (v : View). (command [], v.1 ++ cmd)) at.seen;
        },
      )

  -- A calibration of a head, and the wait for its interrupt.
  calibrates :
      (head : ℕ) (m : Machine) (ws : List ℕ)
      → At m ws
      → let sent = (ws ++ (0x7 ∷ drive_head env.props.drive_number head ∷ [])) ++ (0x8 ∷ []) in
        (m1 : Machine) × (e : ErrT) × (m2 : Machine) × (fpy_cmd_calibrate_drive env fuel
            (head_params env head)
            m
          ≡ some (none, m1))
        × (fpy_wait_irq env fuel u m1 ≡ some (e, m2))
        × (((e ≡ none) × At m2 sent)
            ⊎ ((x : Error) × (e ≡ some x)
                × (n : ℕ) × (view m2.trace ≡ (result (0x8 ∷ []) n, sent))))
  unfolding fpy_cmd_calibrate_drive head_block drive_head
  calibrates head m ws at =
      let v = drive_head env.props.drive_number head in
      let (m1, run1, at1) = sent (0x7 ∷ v ∷ []) false m ws (omega arith) refl at in
      let (e, m2, run2, (received, state, handler), ends) =
        calibration-Ends env fuel bound shows small enough rings u m1 ws v at1 in
      (
        m1,
        e,
        m2,
        run1,
        run2,
        elim ends [
          | inl (fine, seen) ↦
              inl (
                fine,
                record { received = received; state = state; handler = handler; seen = seen },
              )
          | inr (x, bad, n, left) ↦ inr (x, bad, n, left)
        ],
      )

  -- The part of `floppy_init` from the first calibration on.
  abbrev pub calibration : M (Unit {0})
  calibration =
      or_error env (fpy_cmd_calibrate_drive env fuel (head_params env 0)) "calibrate head" 107 (
        or_error env (fpy_wait_irq env fuel u) "wait_irq" 109 (
          or_error env (fpy_cmd_calibrate_drive env fuel (head_params env 1)) "calibrate head" 112 (
            or_error env (fpy_wait_irq env fuel u) "wait_irq" 114
              (log env "| floppy : calibrate head ok\n"))))

  -- An error of the sense command: its second result is left, and `fpy_send_command` is refused.
  stuck :
      (cmd : String) (line : ℕ) (x : Error) (m : Machine) (n : ℕ) (ws : List ℕ)
      → view m.trace ≡ (result (0x8 ∷ []) n, ws)
      → (m' : Machine) × (cmd_error env cmd line x m ≡ some (tt, m'))
        × Refused env fuel m'
        × (fifo_writes m'.trace ≡ ws)
  stuck cmd line x m n ws left =
      let (m', run, same) = told env cmd line x m in
      let seen = same ∙ left in
      (
        m',
        run,
        fpy_send_command-Refused env fuel bound shows small enough m' (0x8 ∷ []) n
            (ap (λ (v : View). v.0) seen),
        ap (λ (v : View). v.1) seen,
      )

  abbrev pub first : List ℕ → List ℕ
  first ws = (ws ++ (0x7 ∷ drive_head env.props.drive_number 0 ∷ [])) ++ (0x8 ∷ [])

  abbrev pub second : List ℕ → List ℕ
  second ws = (first ws ++ (0x7 ∷ drive_head env.props.drive_number 1 ∷ [])) ++ (0x8 ∷ [])

  pub calibration_lem :
      (m : Machine) (ws : List ℕ)
      → At m ws
      → (m' : Machine) × (calibration m ≡ some (tt, m'))
        × ((IsReady m' × (fifo_writes m'.trace ≡ second ws))
            ⊎ (Refused env fuel m'
                × ((SenseFailed env fuel u 0 109 ws m' × (fifo_writes m'.trace ≡ first ws))
                    ⊎ (SenseFailed env fuel u 1 114 (first ws) m'
                        × (fifo_writes m'.trace ≡ second ws)))))
  calibration_lem m ws at =
      let (m1, e1, m2, run1, wait1, ends1) = calibrates 0 m ws at in
      elim ends1 [
        | inr (x, bad, n, left) ↦
            let (m3, run3, refused, writes) = stuck "wait_irq" 109 x m2 n _ left in
            (
              m3,
              ground (arith, run1, wait1, bad, run3),
              inr (
                refused,
                inl (
                  (x, m, m1, m2, At-writes m ws ws at refl, run1, rw (← bad) wait1, run3),
                  writes,
                ),
              ),
            )
        | inl (fine, at2) ↦
            let (m3, e2, m4, run2, wait2, ends2) = calibrates 1 m2 _ at2 in
            elim ends2 [
              | inr (x, bad, n, left) ↦
                  let (m5, run5, refused, writes) = stuck "wait_irq" 114 x m4 n _ left in
                  (
                    m5,
                    ground (arith, run1, wait1, fine, run2, wait2, bad, run5),
                    inr (
                      refused,
                      inr (
                        (
                          x,
                          m2,
                          m3,
                          m4,
                          At-writes m2 _ (first ws) at2 refl,
                          run2,
                          rw (← bad) wait2,
                          run5,
                        ),
                        writes,
                      ),
                    ),
                  )
              | inl (fine', at4) ↦
                  let (m5, run5, at5) = logged env "| floppy : calibrate head ok\n" m4 _ at4 in
                  (
                    m5,
                    ground (arith, run1, wait1, fine, run2, wait2, fine', run5),
                    inl (At-IsReady m5 _ at5, At-writes m5 _ _ at5 refl),
                  )
            ]
      ]
