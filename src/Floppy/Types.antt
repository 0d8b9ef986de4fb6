-- ===== src/Floppy/Types.antt =====
-- The parameter and result structs of shared/floppy.h. A result on which a command returns early
-- keeps, in the fields that it did not reach, what was in the caller's memory.
use toy_bootloader.Common.{ℕ, Bool}
use toy_bootloader.Machine.{ErrT}

-- `enum fpy_cmd`, without the prefix.
pub data FpyCmd : Type 0 where
  cmd_read_track cmd_fix_drive_data cmd_check_stat cmd_write_sect cmd_read_sect : FpyCmd
  cmd_calibrate cmd_check_int cmd_write_deleted_sect cmd_read_sector_id : FpyCmd
  cmd_read_deleted_sect cmd_format_track cmd_seek cmd_version cmd_configure : FpyCmd
  cmd_unlock cmd_lock : FpyCmd

abbrev pub cmd_code : FpyCmd → ℕ
cmd_code cmd_read_track = 0x2
cmd_code cmd_fix_drive_data = 0x3
cmd_code cmd_check_stat = 0x4
cmd_code cmd_write_sect = 0x5
cmd_code cmd_read_sect = 0x6
cmd_code cmd_calibrate = 0x7
cmd_code cmd_check_int = 0x8
cmd_code cmd_write_deleted_sect = 0x9
cmd_code cmd_read_sector_id = 0xa
cmd_code cmd_read_deleted_sect = 0xc
cmd_code cmd_format_track = 0xd
cmd_code cmd_seek = 0xf
cmd_code cmd_version = 0x10
cmd_code cmd_configure = 0x13
cmd_code cmd_unlock = 0x14
cmd_code cmd_lock = 0x94

-- `enum fpy_cmd_ext`
pub data FpyCmdExt : Type 0 where
  ext_skip ext_density ext_multitrack : FpyCmdExt

abbrev pub ext_code : FpyCmdExt → ℕ
ext_code ext_skip = 0x20
ext_code ext_density = 0x40
ext_code ext_multitrack = 0x80

pub record HeadParam : Type 0 where
  pub drive : ℕ
  pub head_number : ℕ

pub record ReadtrackParams : Type 0 where
  pub drive : ℕ
  pub double_density : Bool
  pub skip_mode : Bool
  pub head_number : ℕ
  pub cylinder : ℕ
  pub head : ℕ
  pub sector : ℕ
  pub sector_size : ℕ
  pub track_length : ℕ
  pub length_of_gap3 : ℕ
  pub data_length : ℕ

pub record ReadtrackRes : Type 0 where
  pub error : ErrT
  pub st0 : ℕ
  pub st1 : ℕ
  pub st2 : ℕ
  pub cylinder : ℕ
  pub head : ℕ
  pub sector : ℕ
  pub sector_size : ℕ

pub record WriteSectorParams : Type 0 where
  pub drive : ℕ
  pub double_density : Bool
  pub multitrack : Bool
  pub head_number : ℕ
  pub cylinder : ℕ
  pub head : ℕ
  pub sector : ℕ
  pub sector_size : ℕ
  pub track_length : ℕ
  pub length_of_gap3 : ℕ
  pub data_length : ℕ

pub record ReadSectorParams : Type 0 where
  pub drive : ℕ
  pub double_density : Bool
  pub multitrack : Bool
  pub skip_mode : Bool
  pub head_number : ℕ
  pub cylinder : ℕ
  pub head : ℕ
  pub sector : ℕ
  pub sector_size : ℕ
  pub track_length : ℕ
  pub length_of_gap3 : ℕ
  pub data_length : ℕ

pub record FixDriveDataParams : Type 0 where
  pub step_rate : ℕ
  pub head_unload_time : ℕ
  pub head_load_time : ℕ
  pub ndm : Bool

pub record CheckDriveStatusRes : Type 0 where
  pub error : ErrT
  pub st3 : ℕ

pub record CheckInterruptRes : Type 0 where
  pub error : ErrT
  pub st0 : ℕ
  pub current_cylinder : ℕ

pub record ReadSectorIdRes : Type 0 where
  pub succcess : Bool
  pub st0 : ℕ
  pub st1 : ℕ
  pub st2 : ℕ
  pub cylinder : ℕ
  pub head : ℕ
  pub sector : ℕ
  pub sector_size : ℕ

pub record SeekHeadParams : Type 0 where
  pub drive : ℕ
  pub head_number : ℕ
  pub cylinder : ℕ

pub record ConfigureParams : Type 0 where
  pub implied_seek_enable : Bool
  pub fifo_disable : Bool
  pub drive_polling_disable : Bool
  pub treshold_val : ℕ
  pub precomp_val : ℕ
