-- ===== src/Floppy/Block.antt =====
-- The command blocks: the bytes that each command of shared/floppy_impl.h sends.
use toy_bootloader.Common.{
  ℕ, ◌+◌, ◌*◌, ◌^◌, Bool, List, [], ◌∷◌, bit_or, of_bool, u8, if◌then◌else◌,
}
use toy_bootloader.Floppy.Types.{
  cmd_read_track, cmd_fix_drive_data, cmd_seek, cmd_configure, cmd_code, ext_skip, ext_density,
  ext_multitrack, ext_code, HeadParam, ReadtrackParams, WriteSectorParams, ReadSectorParams,
  FixDriveDataParams, SeekHeadParams, ConfigureParams,
}

-- `cond ? flag : 0`
abbrev pub flag : Bool → ℕ → ℕ
flag b v = if b then v else 0

-- `drive | (head_number << 2)`
unfoldable pub drive_head : ℕ → ℕ → ℕ
drive_head drive head_number = u8 (bit_or drive (head_number * 2 ^ 2))

unfoldable pub readtrack_block : ReadtrackParams → List ℕ
unfolding drive_head
readtrack_block p =
    bit_or (bit_or (cmd_code cmd_read_track) (flag p.double_density (ext_code ext_density)))
      (flag p.skip_mode (ext_code ext_skip))
    ∷ drive_head p.drive p.head_number
    ∷ p.cylinder
    ∷ p.head
    ∷ p.sector
    ∷ p.sector_size
    ∷ p.track_length
    ∷ p.length_of_gap3
    ∷ p.data_length
    ∷ []

-- `fpy_cmd_write_sector` and `fpy_cmd_write_deleted_sector` differ in the command code.
unfoldable pub write_block : ℕ → WriteSectorParams → List ℕ
unfolding drive_head
write_block code p =
    bit_or (bit_or code (flag p.double_density (ext_code ext_density)))
      (flag p.multitrack (ext_code ext_multitrack))
    ∷ drive_head p.drive p.head_number
    ∷ p.cylinder
    ∷ p.head
    ∷ p.sector
    ∷ p.sector_size
    ∷ p.track_length
    ∷ p.length_of_gap3
    ∷ p.data_length
    ∷ []

-- `fpy_cmd_read_sector` and `fpy_cmd_read_deleted_sector` differ in the command code.
unfoldable pub read_block : ℕ → ReadSectorParams → List ℕ
unfolding drive_head
read_block code p =
    bit_or
      (bit_or (bit_or code (flag p.double_density (ext_code ext_density)))
        (flag p.multitrack (ext_code ext_multitrack)))
      (flag p.skip_mode (ext_code ext_skip))
    ∷ drive_head p.drive p.head_number
    ∷ p.cylinder
    ∷ p.head
    ∷ p.sector
    ∷ p.sector_size
    ∷ p.track_length
    ∷ p.length_of_gap3
    ∷ p.data_length
    ∷ []

unfoldable pub fix_drive_data_block : FixDriveDataParams → List ℕ
fix_drive_data_block p =
    cmd_code cmd_fix_drive_data
    ∷ u8 (bit_or p.head_load_time (p.step_rate * 2 ^ 4))
    ∷ u8 (bit_or (of_bool p.ndm) (p.head_load_time * 2 ^ 1))
    ∷ []

-- The blocks of two bytes that take a `struct fpy_cmd_head_param`.
unfoldable pub head_block : ℕ → HeadParam → List ℕ
unfolding drive_head
head_block code p = code ∷ drive_head p.drive p.head_number ∷ []

unfoldable pub seek_block : SeekHeadParams → List ℕ
unfolding drive_head
seek_block p = cmd_code cmd_seek ∷ drive_head p.drive p.head_number ∷ p.cylinder ∷ []

-- `treshold_val - 1` is an `int`; the byte that is stored is its value modulo 256.
unfoldable pub configure_block : ConfigureParams → List ℕ
configure_block p =
    cmd_code cmd_configure
    ∷ 0
    ∷ bit_or
        (bit_or (bit_or (u8 (p.treshold_val + 255)) (of_bool p.drive_polling_disable * 2 ^ 4))
          (of_bool p.fifo_disable * 2 ^ 5))
        (of_bool p.implied_seek_enable * 2 ^ 6)
    ∷ p.precomp_val
    ∷ []
