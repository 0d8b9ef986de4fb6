-- ===== src/Floppy/Safety.antt =====
-- What the commands of the driver leave alone, on any controller.
use toy_bootloader.Common.{ℕ, ◌≡◌, Bool, true, false, none, some, List, if◌then◌else◌}
use toy_bootloader.Machine.{
  Env, Machine, M, pure, ◌>>=◌, Frame, Keeps-pure, Keeps->>=, Keeps->>!, Keeps-bool, Keeps-error,
}
use toy_bootloader.Floppy.Types.{
  HeadParam, ReadtrackParams, ReadtrackRes, WriteSectorParams, ReadSectorParams, FixDriveDataParams,
  CheckDriveStatusRes, CheckInterruptRes, ReadSectorIdRes, SeekHeadParams, ConfigureParams,
}
use toy_bootloader.Floppy.Status.{fpy_check_st0, fpy_check_st1, fpy_check_st2, fpy_check_st3}
use toy_bootloader.Floppy.Block.{
  readtrack_block, write_block, read_block, fix_drive_data_block, head_block, seek_block,
  configure_block,
}
use toy_bootloader.Floppy.Fifo.{fpy_read_data}
use toy_bootloader.Floppy.Irq.{fpy_cmd_check_interrupt}
use toy_bootloader.Floppy.Commands.{
  checked, is_error, unless_false, fpy_cmd_gen_res, send_with_res, fpy_cmd_readtrack,
  fpy_cmd_write_sector, fpy_cmd_write_deleted_sector, fpy_cmd_read_deleted_sector,
  fpy_cmd_read_sector, fpy_cmd_fix_drive_data, fpy_cmd_check_drive_status, fpy_cmd_calibrate_drive,
  fpy_cmd_seek_head, fpy_cmd_configure, fpy_cmd_read_sector_id, fpy_cmd_check_version, fpy_cmd_lock,
}
use toy_bootloader.Floppy.Read.{}
use toy_bootloader.Floppy.Frames.{
  IsFpy, DmaWithin, Safe, fpy_read_data-Safe, fpy_send_command_byte-Safe, fpy_send_command-Safe,
  fpy_prepare_irq_no_handle-Safe, fpy_cmd_check_interrupt-Safe, fpy_wait_irq-Safe,
}

module _ (env : Env) (W : ℕ → Bool) where
  checked-Safe :
      (res : ReadtrackRes) (next : ReadtrackRes → M ReadtrackRes)
      → ((r : ReadtrackRes) → Safe env W (next r))
      → Safe env W (checked res next)
  checked-Safe res next h = Keeps-error IsFpy W res.error _ _ (λ x. Keeps-pure IsFpy W res) (h res)

  unless_false-Safe :
      (res : ReadSectorIdRes) (next : ReadSectorIdRes → M ReadSectorIdRes)
      → ((r : ReadSectorIdRes) → Safe env W (next r))
      → Safe env W (unless_false res next)
  unless_false-Safe res next h =
      Keeps-bool IsFpy W res.succcess _ _ (h res) (Keeps-pure IsFpy W res)

  -- A result byte, and what follows.
  reads-Safe :
      {A : Type 0} (f : ℕ → M A)
      → ((v : ℕ) → Safe env W (f v))
      → Safe env W (fpy_read_data env >>= f)
  reads-Safe f h = Keeps->>= IsFpy W (fpy_read_data env) f (fpy_read_data-Safe env W) h

  fpy_cmd_gen_res-Safe : (res : ReadtrackRes) → Safe env W (fpy_cmd_gen_res env res)
  unfolding fpy_cmd_gen_res
  fpy_cmd_gen_res-Safe res = reads-Safe _ λ st0.
      checked-Safe (record res { error = fpy_check_st0 st0; st0 = st0 }) _
        λ res. reads-Safe _ λ st1.
          checked-Safe (record res { error = fpy_check_st1 st1; st1 = st1 }) _
            λ res. reads-Safe _ λ st2.
              checked-Safe (record res { error = fpy_check_st2 st2; st2 = st2 }) _
                λ res. reads-Safe _ λ c. reads-Safe _ λ h. reads-Safe _ λ s. reads-Safe _ λ z.
                  Keeps-pure IsFpy W (record res {
                    error = none;
                    cylinder = c;
                    head = h;
                    sector = s;
                    sector_size = z;
                  })

  module _ (fuel : ℕ) where
    send_with_res-Safe :
        (block : List ℕ) (uninit : ReadtrackRes) → Safe env W (send_with_res env fuel block uninit)
    unfolding send_with_res
    send_with_res-Safe block uninit =
        Keeps->>= IsFpy W _ _ (fpy_send_command-Safe env W fuel block true)
          (λ e. Keeps-error IsFpy W e _ _ (λ x. Keeps-pure IsFpy W _) (fpy_cmd_gen_res-Safe _))

    module _ (r : CheckInterruptRes) (within : DmaWithin env W) where
      pub fpy_cmd_read_sector-Safe :
          (p : ReadSectorParams) (uninit : ReadtrackRes)
          → Safe env W (fpy_cmd_read_sector env fuel r p uninit)
      unfolding fpy_cmd_read_sector
      fpy_cmd_read_sector-Safe p uninit =
          Keeps->>= IsFpy W _ _ (fpy_prepare_irq_no_handle-Safe env W) (λ _.
            Keeps->>= IsFpy W _ _ (fpy_send_command-Safe env W fuel (read_block 0x6 p) true) (λ e.
              Keeps-error IsFpy W e _ _ (λ x. Keeps-pure IsFpy W _)
                (Keeps->>= IsFpy W _ _ (fpy_wait_irq-Safe env W fuel r within)
                  (λ _. fpy_cmd_gen_res-Safe _))))

      fpy_cmd_read_sector_id-Safe :
          (p : HeadParam) (uninit : ReadSectorIdRes)
          → Safe env W (fpy_cmd_read_sector_id env fuel r p uninit)
      unfolding fpy_cmd_read_sector_id
      fpy_cmd_read_sector_id-Safe p uninit =
          Keeps->>= IsFpy W _ _ (fpy_send_command-Safe env W fuel (head_block 0xa p) false) λ e.
            unless_false-Safe (record uninit { succcess = is_error e }) _
              λ res. Keeps->>= IsFpy W _ _ (fpy_wait_irq-Safe env W fuel r within) λ e.
                unless_false-Safe (record res { succcess = is_error e }) _
                  λ res. reads-Safe _ λ st0.
                    unless_false-Safe
                      (record res { succcess = is_error (fpy_check_st0 st0); st0 = st0 }) _
                      λ res. reads-Safe _ λ st1.
                        unless_false-Safe
                          (record res { succcess = is_error (fpy_check_st1 st1); st1 = st1 }) _
                          λ res. reads-Safe _ λ st2.
                            unless_false-Safe
                              (record res { succcess = is_error (fpy_check_st2 st2); st2 = st2 }) _
                              λ res. reads-Safe _ λ c. reads-Safe _ λ h. reads-Safe _ λ s.
                                reads-Safe _ λ z. Keeps-pure IsFpy W (record res {
                                  cylinder = c;
                                  head = h;
                                  sector = s;
                                  sector_size = z;
                                })

-- The commands of the driver, with what they are called with.
pub data Command : Type 0 where
  readtrack : ReadtrackParams → ReadtrackRes → Command
  write_sector write_deleted_sector : WriteSectorParams → ReadtrackRes → Command
  read_sector read_deleted_sector : ReadSectorParams → ReadtrackRes → Command
  fix_drive_data : FixDriveDataParams → Command
  check_drive_status : HeadParam → CheckDriveStatusRes → Command
  calibrate_drive : HeadParam → Command
  check_interrupt : Command
  read_sector_id : HeadParam → ReadSectorIdRes → Command
  seek_head : SeekHeadParams → Command
  configure : ConfigureParams → Command
  check_version : Command
  lock : Bool → Command

abbrev dropped : {A : Type 0} → M A → M (Unit {0})
dropped p = p >>= λ _. pure tt

module _ (env : Env) (fuel : ℕ) (r : CheckInterruptRes) where
  -- The call of the command, its result left out.
  abbrev pub perform : Command → M (Unit {0})
  perform (readtrack p u) = dropped (fpy_cmd_readtrack env fuel p u)
  perform (write_sector p u) = dropped (fpy_cmd_write_sector env fuel p u)
  perform (write_deleted_sector p u) = dropped (fpy_cmd_write_deleted_sector env fuel p u)
  perform (read_sector p u) = dropped (fpy_cmd_read_sector env fuel r p u)
  perform (read_deleted_sector p u) = dropped (fpy_cmd_read_deleted_sector env fuel p u)
  perform (fix_drive_data p) = dropped (fpy_cmd_fix_drive_data env fuel p)
  perform (check_drive_status p u) = dropped (fpy_cmd_check_drive_status env fuel p u)
  perform (calibrate_drive p) = dropped (fpy_cmd_calibrate_drive env fuel p)
  perform check_interrupt = dropped (fpy_cmd_check_interrupt env fuel r)
  perform (read_sector_id p u) = dropped (fpy_cmd_read_sector_id env fuel r p u)
  perform (seek_head p) = dropped (fpy_cmd_seek_head env fuel p)
  perform (configure p) = dropped (fpy_cmd_configure env fuel p)
  perform check_version = dropped (fpy_cmd_check_version env)
  perform (lock b) = dropped (fpy_cmd_lock env b)

  module _ (W : ℕ → Bool) (within : DmaWithin env W) where
    dropped-Safe : {A : Type 0} (p : M A) → Safe env W p → Safe env W (dropped p)
    dropped-Safe p h = Keeps->>= IsFpy W p _ h (λ _. Keeps-pure IsFpy W tt)

    -- Whatever the controller does, if its transfers stay within `W` and a command of the driver
    -- returns, then the command has written to memory inside `W` alone, has touched no port but the
    -- controller's and the interrupt controller's, and has changed no global variable but the two of
    -- the handshake with the interrupt handler.
    pub commands_safe :
        (c : Command) (m m' : Machine) → perform c m ≡ some (tt, m') → Frame IsFpy W m m'
    unfolding fpy_cmd_readtrack fpy_cmd_write_sector fpy_cmd_write_deleted_sector
        fpy_cmd_read_deleted_sector fpy_cmd_fix_drive_data fpy_cmd_check_drive_status
        fpy_cmd_calibrate_drive fpy_cmd_seek_head fpy_cmd_configure fpy_cmd_check_version
        fpy_cmd_lock
    commands_safe c m m' h = safe c m tt m' h
      where
        safe : (c : Command) → Safe env W (perform c)
        safe (readtrack p u) = dropped-Safe _ (send_with_res-Safe env W fuel (readtrack_block p) u)
        safe (write_sector p u) =
            dropped-Safe _ (send_with_res-Safe env W fuel (write_block 0x5 p) u)
        safe (write_deleted_sector p u) =
            dropped-Safe _ (send_with_res-Safe env W fuel (write_block 0x9 p) u)
        safe (read_sector p u) = dropped-Safe _ (fpy_cmd_read_sector-Safe env W fuel r within p u)
        safe (read_deleted_sector p u) =
            dropped-Safe _ (send_with_res-Safe env W fuel (read_block 0xc p) u)
        safe (fix_drive_data p) =
            dropped-Safe _ (fpy_send_command-Safe env W fuel (fix_drive_data_block p) true)
        safe (check_drive_status p u) = dropped-Safe _ (
            Keeps->>= IsFpy W _ _ (fpy_send_command-Safe env W fuel (head_block 0x4 p) true) λ e.
              Keeps-error IsFpy W e _ _ (λ x. Keeps-pure IsFpy W _)
                (reads-Safe env W _
                  λ st3. Keeps-pure IsFpy W (record u { st3 = st3; error = fpy_check_st3 st3 })))
        safe (calibrate_drive p) =
            dropped-Safe _ (fpy_send_command-Safe env W fuel (head_block 0x7 p) false)
        safe check_interrupt = dropped-Safe _ (fpy_cmd_check_interrupt-Safe env W fuel r)
        safe (read_sector_id p u) =
            dropped-Safe _ (fpy_cmd_read_sector_id-Safe env W fuel r within p u)
        safe (seek_head p) = dropped-Safe _ (fpy_send_command-Safe env W fuel (seek_block p) true)
        safe (configure p) =
            dropped-Safe _ (fpy_send_command-Safe env W fuel (configure_block p) true)
        safe check_version = dropped-Safe _ (
            Keeps->>! IsFpy W _ _ (fpy_send_command_byte-Safe env W 0x10)
              (reads-Safe env W _ λ v. Keeps-pure IsFpy W _))
        safe (lock b) = dropped-Safe _ (
            Keeps->>! IsFpy W _ _ (fpy_send_command_byte-Safe env W (if b then 0x94 else 0x14))
              (reads-Safe env W _ λ v. Keeps-pure IsFpy W _))
