-- ===== src/Floppy/Commands.antt =====
-- The commands of shared/floppy_impl.h.
use toy_bootloader.Common.{ℕ, Bool, true, false, none, some, List, ◌==◌, if◌then◌else◌}
use toy_bootloader.Machine.{ErrT, bad_version, Env, M, pure, ◌>>=◌, ◌>>◌, ◌>>!◌}
use toy_bootloader.Floppy.Types.{
  cmd_write_sect, cmd_write_deleted_sect, cmd_read_deleted_sect, cmd_read_sect, cmd_check_stat,
  cmd_calibrate, cmd_read_sector_id, cmd_version, cmd_lock, cmd_unlock, cmd_code, HeadParam,
  ReadtrackParams, ReadtrackRes, WriteSectorParams, ReadSectorParams, FixDriveDataParams,
  CheckDriveStatusRes, CheckInterruptRes, ReadSectorIdRes, SeekHeadParams, ConfigureParams,
}
use toy_bootloader.Floppy.Status.{fpy_check_st0, fpy_check_st1, fpy_check_st2, fpy_check_st3}
use toy_bootloader.Floppy.Fifo.{fpy_read_data, fpy_send_command_byte, fpy_send_command}
use toy_bootloader.Floppy.Block.{
  readtrack_block, write_block, read_block, fix_drive_data_block, head_block, seek_block,
  configure_block,
}
use toy_bootloader.Floppy.Irq.{fpy_prepare_irq_no_handle, fpy_wait_irq}

-- One status byte: it is stored with the result of its check, and an error ends the function.
abbrev pub checked : ReadtrackRes → (ReadtrackRes → M ReadtrackRes) → M ReadtrackRes
checked res next = elim res.error [ some x ↦ pure res | none ↦ next res ]

-- An `err_t` that is stored in a `bool`.
abbrev pub is_error : ErrT → Bool
is_error (some x) = true
is_error none = false

-- `if (!res.succcess) return res;`
abbrev pub unless_false :
    ReadSectorIdRes → (ReadSectorIdRes → M ReadSectorIdRes) → M ReadSectorIdRes
unless_false res next = elim res.succcess [ false ↦ pure res | true ↦ next res ]

module _ (env : Env) where
  unfoldable pub fpy_cmd_gen_res : ReadtrackRes → M ReadtrackRes
  fpy_cmd_gen_res res = do
    st0 ← fpy_read_data env
    checked (record res { error = fpy_check_st0 st0; st0 = st0 })
        λ res. do
          st1 ← fpy_read_data env
          checked (record res { error = fpy_check_st1 st1; st1 = st1 })
              λ res. do
                st2 ← fpy_read_data env
                checked (record res { error = fpy_check_st2 st2; st2 = st2 })
                    λ res. do
                      cylinder ← fpy_read_data env
                      head ← fpy_read_data env
                      sector ← fpy_read_data env
                      sector_size ← fpy_read_data env
                      pure (record res {
                        error = none;
                        cylinder = cylinder;
                        head = head;
                        sector = sector;
                        sector_size = sector_size;
                      })

module _ (env : Env) (fuel : ℕ) where
  -- What the commands with a nine-byte block share.
  unfoldable pub send_with_res : List ℕ → ReadtrackRes → M ReadtrackRes
  send_with_res block uninit = do
    e ← fpy_send_command env fuel block true
    elim e [
      | some x ↦ pure (record uninit { error = some x })
      | none ↦ fpy_cmd_gen_res env (record uninit { error = none })
    ]

  unfoldable pub fpy_cmd_readtrack : ReadtrackParams → ReadtrackRes → M ReadtrackRes
  unfolding send_with_res
  fpy_cmd_readtrack params uninit = send_with_res (readtrack_block params) uninit

  unfoldable pub fpy_cmd_write_sector : WriteSectorParams → ReadtrackRes → M ReadtrackRes
  unfolding send_with_res
  fpy_cmd_write_sector params uninit =
      send_with_res (write_block (cmd_code cmd_write_sect) params) uninit

  unfoldable pub fpy_cmd_write_deleted_sector : WriteSectorParams → ReadtrackRes → M ReadtrackRes
  unfolding send_with_res
  fpy_cmd_write_deleted_sector params uninit =
      send_with_res (write_block (cmd_code cmd_write_deleted_sect) params) uninit

  unfoldable pub fpy_cmd_read_deleted_sector : ReadSectorParams → ReadtrackRes → M ReadtrackRes
  unfolding send_with_res
  fpy_cmd_read_deleted_sector params uninit =
      send_with_res (read_block (cmd_code cmd_read_deleted_sect) params) uninit

  unfoldable pub fpy_cmd_read_sector :
      CheckInterruptRes → ReadSectorParams → ReadtrackRes → M ReadtrackRes
  fpy_cmd_read_sector r params uninit = do
    fpy_prepare_irq_no_handle
    e ← fpy_send_command env fuel (read_block (cmd_code cmd_read_sect) params) true
    elim e [
      | some x ↦ pure (record uninit { error = some x })
      | none ↦ do
        ignored ← fpy_wait_irq env fuel r
        fpy_cmd_gen_res env (record uninit { error = none })
    ]

  unfoldable pub fpy_cmd_fix_drive_data : FixDriveDataParams → M ErrT
  fpy_cmd_fix_drive_data params = fpy_send_command env fuel (fix_drive_data_block params) true

  unfoldable pub fpy_cmd_check_drive_status :
      HeadParam → CheckDriveStatusRes → M CheckDriveStatusRes
  fpy_cmd_check_drive_status params uninit = do
    e ← fpy_send_command env fuel (head_block (cmd_code cmd_check_stat) params) true
    elim e [
      | some x ↦ pure (record uninit { error = some x })
      | none ↦ do
        st3 ← fpy_read_data env
        pure (record uninit { st3 = st3; error = fpy_check_st3 st3 })
    ]

  unfoldable pub fpy_cmd_calibrate_drive : HeadParam → M ErrT
  fpy_cmd_calibrate_drive params =
      fpy_send_command env fuel (head_block (cmd_code cmd_calibrate) params) false

  unfoldable pub fpy_cmd_seek_head : SeekHeadParams → M ErrT
  fpy_cmd_seek_head params = fpy_send_command env fuel (seek_block params) true

  unfoldable pub fpy_cmd_configure : ConfigureParams → M ErrT
  fpy_cmd_configure params = fpy_send_command env fuel (configure_block params) true

  unfoldable pub fpy_cmd_read_sector_id :
      CheckInterruptRes → HeadParam → ReadSectorIdRes → M ReadSectorIdRes
  fpy_cmd_read_sector_id r params uninit = do
    e ← fpy_send_command env fuel (head_block (cmd_code cmd_read_sector_id) params) false
    unless_false (record uninit { succcess = is_error e })
        λ res. do
          e ← fpy_wait_irq env fuel r
          unless_false (record res { succcess = is_error e })
              λ res. do
                st0 ← fpy_read_data env
                unless_false (record res { succcess = is_error (fpy_check_st0 st0); st0 = st0 })
                    λ res. do
                      st1 ← fpy_read_data env
                      unless_false
                          (record res { succcess = is_error (fpy_check_st1 st1); st1 = st1 })
                          λ res. do
                            st2 ← fpy_read_data env
                            unless_false
                                (record res { succcess = is_error (fpy_check_st2 st2); st2 = st2 })
                                λ res. do
                                  cylinder ← fpy_read_data env
                                  head ← fpy_read_data env
                                  sector ← fpy_read_data env
                                  sector_size ← fpy_read_data env
                                  pure (record res {
                                    cylinder = cylinder;
                                    head = head;
                                    sector = sector;
                                    sector_size = sector_size;
                                  })

unfoldable pub fpy_cmd_check_version : Env → M ErrT
fpy_cmd_check_version env =
    fpy_send_command_byte env (cmd_code cmd_version)
    >>! do v ← fpy_read_data env; pure (if v == 0x90 then none else some bad_version)

unfoldable pub fpy_cmd_lock : Env → Bool → M ErrT
fpy_cmd_lock env lock =
    fpy_send_command_byte env (if lock then cmd_code cmd_lock else cmd_code cmd_unlock)
    >>! do ignored ← fpy_read_data env; pure none
