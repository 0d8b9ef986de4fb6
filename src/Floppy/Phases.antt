-- ===== src/Floppy/Phases.antt =====
-- What a command of the driver does to the phase of the controller, piece by piece.
use toy_bootloader.Common.{
  ℕ, ◌%◌, ◌<◌, ◌≤◌, ◌≡◌, refl, ap, ◌∙◌, Bool, true, false, not, none, some, List, [], ◌∷◌, ◌++◌,
  ◌⊎◌, inl, inr, arith, All,
}
use toy_bootloader.Machine.{Trace, Env, Machine, ErrT, M, pure, ◌>>=◌}
use toy_bootloader.Floppy.Types.{CheckInterruptRes, ReadtrackRes}
use toy_bootloader.Floppy.Fifo.{fpy_send_command, fpy_send_command_byte, fpy_read_data}
use toy_bootloader.Floppy.Block.{}
use toy_bootloader.Floppy.Irq.{fpy_cmd_check_interrupt}
use toy_bootloader.Floppy.Commands.{
  is_error, send_with_res, fpy_cmd_readtrack, fpy_cmd_write_sector, fpy_cmd_write_deleted_sector,
  fpy_cmd_read_deleted_sector, fpy_cmd_read_sector, fpy_cmd_fix_drive_data,
  fpy_cmd_check_drive_status, fpy_cmd_calibrate_drive, fpy_cmd_seek_head, fpy_cmd_configure,
  fpy_cmd_read_sector_id, fpy_cmd_check_version, fpy_cmd_lock,
}
use toy_bootloader.Floppy.Delivered.{IsByte}
use toy_bootloader.Floppy.Polling.{fifo_writes}
use toy_bootloader.Floppy.Observed.{puts_all, byte_seen}
use toy_bootloader.Floppy.Controller.{Phase, command, result, put, phase, need, results}
use toy_bootloader.Floppy.Safety.{Command}
use toy_bootloader.Floppy.Sensing.{View, view, put_view, view-Observer}
use toy_bootloader.Floppy.BlockLaws.{command_byte}
use toy_bootloader.Floppy.Manual.{place, manual}
use toy_bootloader.Floppy.Showing.{Shows, whole_sent, one_read, results_end, Ends}

abbrev pub good : ErrT → Bool
good e = not (is_error e)

module _ (env : Env) (fuel : ℕ) (r : CheckInterruptRes) where
  -- The call of the command, with whether it reports a success.
  abbrev pub report : Command → M Bool
  report (Command.readtrack p u) = fpy_cmd_readtrack env fuel p u >>= λ res. pure (good res.error)
  report (Command.write_sector p u) =
      fpy_cmd_write_sector env fuel p u >>= λ res. pure (good res.error)
  report (Command.write_deleted_sector p u) =
      fpy_cmd_write_deleted_sector env fuel p u >>= λ res. pure (good res.error)
  report (Command.read_sector p u) =
      fpy_cmd_read_sector env fuel r p u >>= λ res. pure (good res.error)
  report (Command.read_deleted_sector p u) =
      fpy_cmd_read_deleted_sector env fuel p u >>= λ res. pure (good res.error)
  report (Command.fix_drive_data p) = fpy_cmd_fix_drive_data env fuel p >>= λ e. pure (good e)
  report (Command.check_drive_status p u) =
      fpy_cmd_check_drive_status env fuel p u >>= λ res. pure (good res.error)
  report (Command.calibrate_drive p) = fpy_cmd_calibrate_drive env fuel p >>= λ e. pure (good e)
  report Command.check_interrupt =
      fpy_cmd_check_interrupt env fuel r >>= λ res. pure (good res.error)
  report (Command.read_sector_id p u) =
      fpy_cmd_read_sector_id env fuel r p u >>= λ res. pure res.succcess
  report (Command.seek_head p) = fpy_cmd_seek_head env fuel p >>= λ e. pure (good e)
  report (Command.configure p) = fpy_cmd_configure env fuel p >>= λ e. pure (good e)
  report Command.check_version = fpy_cmd_check_version env >>= λ e. pure (good e)
  report (Command.lock b) = fpy_cmd_lock env b >>= λ e. pure (good e)

-- A command with seven results waits for nine bytes.
pub nine_whole :
    (x b c h s z t g d : ℕ)
    → need (x % 32) ≡ 9
    → results (x % 32) ≡ 7
    → puts_all put (command []) (x ∷ b ∷ place c h s z t g d)
      ≡ result (x ∷ b ∷ place c h s z t g d) 7
nine_whole x b c h s z t g d n k = rw (n, k, n, n, n, n, n, n, n, n, k) refl

pub code_of :
    (code : ℕ) (mt mfm sk : Bool)
    → code < 32
    → (command_byte code mt mfm sk % 32 ≡ code) × (command_byte code mt mfm sk < 256)
code_of code mt mfm sk h = ground arith

-- Either the controller waits for a command, or the call has reported a failure and left results.
abbrev pub InStep : Command → Machine → Bool → Machine → Type 0
InStep c m good m' =
    (fifo_writes m'.trace ≡ fifo_writes m.trace ++ manual c)
    × ((phase m'.trace ≡ command [])
        ⊎ ((good ≡ false) × (b : List ℕ) × (n : ℕ) × (phase m'.trace ≡ result b n)))

pub rests :
    (c : Command) (m : Machine) (good : Bool) (m' : Machine)
    → view m'.trace ≡ (command [], fifo_writes m.trace ++ manual c)
    → InStep c m good m'
rests c m good m' seen = (ap (λ (v : View). v.1) seen, inl (ap (λ (v : View). v.0) seen))

pub ends_lem :
    (c : Command) (m : Machine) (b ws : List ℕ) (e : ErrT) (m' : Machine)
    → ws ≡ fifo_writes m.trace ++ manual c
    → Ends b ws e m'.trace
    → InStep c m (good e) m'
ends_lem c m b ws e m' same (inl (none', done)) =
    (ap (λ (v : View). v.1) done ∙ same, inl (ap (λ (v : View). v.0) done))
ends_lem c m b ws e m' same (inr (x, bad, n, left)) =
    (ap (λ (v : View). v.1) left ∙ same, inr (ap good bad, b, n, ap (λ (v : View). v.0) left))

module _ (env : Env) (fuel bound : ℕ) (shows : Shows env bound) (small : bound ≤ 1000)
    (enough : bound ≤ fuel) (r : CheckInterruptRes) where
  -- A command without results.
  pub plain :
      (c : Command) (mrq : Bool) (m : Machine)
      → All IsByte (manual c)
      → puts_all put (command []) (manual c) ≡ command []
      → phase m.trace ≡ command []
      → (t : Trace) × (fpy_send_command env fuel (manual c) mrq m
          ≡ some (none, record m { trace = t }))
        × InStep c m true (record m { trace = t })
  plain c mrq m fits whole start =
      let (t, run, seen) =
        whole_sent env fuel bound shows small enough (manual c) mrq m _ fits start whole in
      (t, run, rests c m true (record m { trace = t }) seen)

  -- A command with seven results.
  seven :
      (c : Command) (u : ReadtrackRes) (m : Machine)
      → All IsByte (manual c)
      → puts_all put (command []) (manual c) ≡ result (manual c) 7
      → phase m.trace ≡ command []
      → (res : ReadtrackRes) × (m' : Machine) × (send_with_res env fuel (manual c) u m
          ≡ some (res, m'))
        × InStep c m (good res.error) m'
  unfolding send_with_res
  seven c u m fits whole start =
      let (t, run, seen) =
        whole_sent env fuel bound shows small enough (manual c) true m _ fits start whole in
      let (res, t', run', ends) =
        results_end env fuel bound shows small enough (manual c) _ (record u { error = none })
          (record m { trace = t }) seen in
      (
        res,
        record m { trace = t' },
        ground (arith, run, run'),
        ends_lem c m (manual c) _ res.error (record m { trace = t' }) refl ends,
      )

  -- Of the two cases of a nine-byte command, the bytes and the phase.
  pub nine :
      (c : Command) (u : ReadtrackRes) (m : Machine) (code : ℕ) (mt mfm sk : Bool)
      (b cy h s z t g d : ℕ)
      → manual c ≡ command_byte code mt mfm sk ∷ b ∷ place cy h s z t g d
      → code < 32
      → need code ≡ 9
      → results code ≡ 7
      → b < 256
      → All IsByte (place cy h s z t g d)
      → phase m.trace ≡ command []
      → (res : ReadtrackRes) × (m' : Machine) × (send_with_res env fuel (manual c) u m
          ≡ some (res, m'))
        × InStep c m (good res.error) m'
  nine c u m code mt mfm sk b cy h s z t g d e low n k small' fits start =
      let (same, byte) = code_of code mt mfm sk low in
      seven c u m (rw e (byte, (small', fits)))
        (rw e (
          nine_whole (command_byte code mt mfm sk) b cy h s z t g d (ap need same ∙ n)
            (ap results same ∙ k)))
        start

  -- A command with results that are then read.
  pub starts :
      (c : Command) (mrq : Bool) (m : Machine)
      → All IsByte (manual c)
      → {f : Phase} → puts_all put (command []) (manual c) ≡ f
      → phase m.trace ≡ command []
      → (t : Trace) × (fpy_send_command env fuel (manual c) mrq m
          ≡ some (none, record m { trace = t }))
        × (view t ≡ (f, fifo_writes m.trace ++ manual c))
  starts c mrq m fits whole start =
      whole_sent env fuel bound shows small enough (manual c) mrq m _ fits start whole

  -- A command of one byte with one result.
  pub asked :
      (v : ℕ) (m : Machine)
      → IsByte v
      → put (command []) v ≡ result (v ∷ []) 1
      → phase m.trace ≡ command []
      → (w : ℕ) × (t0 t : Trace) × (fpy_send_command_byte env v m
          ≡ some (none, record m { trace = t0 }))
        × (fpy_read_data env (record m { trace = t0 }) ≡ some (w, record m { trace = t }))
        × (view t ≡ (command [], fifo_writes m.trace ++ (v ∷ [])))
  asked v m fits whole start =
      let ws = fifo_writes m.trace in
      let (t0, run0, seen0) =
        byte_seen View view put_view view-Observer env bound shows.answers small v m fits in
      let sent : view t0 ≡ (result (v ∷ []) 1, ws ++ (v ∷ [])) =
        seen0
        ∙ ap (λ (f : Phase). put_view (f, ws) v) start
        ∙ ap (λ (f : Phase). (f, ws ++ (v ∷ []))) whole in
      let (w, t, run, seen) =
        one_read env fuel bound shows small enough (record m { trace = t0 }) _ _ sent in
      (w, t0, t, run0, run, seen)
