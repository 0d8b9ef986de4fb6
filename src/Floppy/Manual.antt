-- ===== src/Floppy/Manual.antt =====
-- The bytes of every command, as the controller's manual reads them, and the parameters that the code
-- sends in the place of the caller's.
use toy_bootloader.Common.{
  ℕ, ◌+◌, ◌-◌, ◌*◌, ◌^◌, ◌≤◌, ◌<◌, ◌≡◌, refl, Bool, true, false, List, [], ◌∷◌, arith, All, bit_or,
  bit_or_comm, bit_or_fields, of_bool, u8, if◌then◌else◌, ◌==◌, all_below, all_below_sound,
}
use toy_bootloader.Floppy.Types.{}
use toy_bootloader.Floppy.Block.{
  flag, readtrack_block, write_block, read_block, fix_drive_data_block, head_block, seek_block,
  configure_block,
}
use toy_bootloader.Floppy.BlockLaws.{command_byte, drive_head_lem, read_block_lem}
use toy_bootloader.Floppy.Delivered.{IsByte}
use toy_bootloader.Floppy.Safety.{Command}

-- The block that the command's function hands over.
abbrev pub block : Command → List ℕ
block (Command.readtrack p u) = readtrack_block p
block (Command.write_sector p u) = write_block 0x5 p
block (Command.write_deleted_sector p u) = write_block 0x9 p
block (Command.read_sector p u) = read_block 0x6 p
block (Command.read_deleted_sector p u) = read_block 0xc p
block (Command.fix_drive_data p) = fix_drive_data_block p
block (Command.check_drive_status p u) = head_block 0x4 p
block (Command.calibrate_drive p) = head_block 0x7 p
block Command.check_interrupt = 0x8 ∷ []
block (Command.read_sector_id p u) = head_block 0xa p
block (Command.seek_head p) = seek_block p
block (Command.configure p) = configure_block p
block Command.check_version = 0x10 ∷ []
block (Command.lock b) = (if b then 0x94 else 0x14) ∷ []

-- Where a sector is, and how it is laid out: the seven bytes behind the drive.
abbrev pub place : ℕ → ℕ → ℕ → ℕ → ℕ → ℕ → ℕ → List ℕ
place cylinder head sector size last gap length =
    cylinder ∷ head ∷ sector ∷ size ∷ last ∷ gap ∷ length ∷ []

-- What the manual has for the same parameters.
abbrev pub manual : Command → List ℕ
manual (Command.readtrack p u) =
    command_byte 2 false p.double_density p.skip_mode
    ∷ (p.drive + p.head_number * 4)
    ∷ place p.cylinder p.head p.sector p.sector_size p.track_length p.length_of_gap3 p.data_length
manual (Command.write_sector p u) =
    command_byte 5 p.multitrack p.double_density false
    ∷ (p.drive + p.head_number * 4)
    ∷ place p.cylinder p.head p.sector p.sector_size p.track_length p.length_of_gap3 p.data_length
manual (Command.write_deleted_sector p u) =
    command_byte 9 p.multitrack p.double_density false
    ∷ (p.drive + p.head_number * 4)
    ∷ place p.cylinder p.head p.sector p.sector_size p.track_length p.length_of_gap3 p.data_length
manual (Command.read_sector p u) =
    command_byte 6 p.multitrack p.double_density p.skip_mode
    ∷ (p.drive + p.head_number * 4)
    ∷ place p.cylinder p.head p.sector p.sector_size p.track_length p.length_of_gap3 p.data_length
manual (Command.read_deleted_sector p u) =
    command_byte 12 p.multitrack p.double_density p.skip_mode
    ∷ (p.drive + p.head_number * 4)
    ∷ place p.cylinder p.head p.sector p.sector_size p.track_length p.length_of_gap3 p.data_length
manual (Command.fix_drive_data p) =
    3 ∷ (p.step_rate * 16 + p.head_unload_time) ∷ (p.head_load_time * 2 + of_bool p.ndm) ∷ []
manual (Command.check_drive_status p u) = 4 ∷ (p.drive + p.head_number * 4) ∷ []
manual (Command.calibrate_drive p) = 7 ∷ (p.drive + p.head_number * 4) ∷ []
manual Command.check_interrupt = 8 ∷ []
manual (Command.read_sector_id p u) = 10 ∷ (p.drive + p.head_number * 4) ∷ []
manual (Command.seek_head p) = 15 ∷ (p.drive + p.head_number * 4) ∷ p.cylinder ∷ []
manual (Command.configure p) =
    19
    ∷ 0
    ∷ (of_bool p.implied_seek_enable * 64
        + of_bool p.fifo_disable * 32
        + of_bool p.drive_polling_disable * 16
        + (p.treshold_val - 1))
    ∷ p.precomp_val
    ∷ []
manual Command.check_version = 16 ∷ []
manual (Command.lock b) = (20 + of_bool b * 128) ∷ []

-- The command whose bytes the code sends: in the drive data, the head load time stands for both times,
-- and the head unload time of the caller is not used. All others are sent as they are.
abbrev pub as_sent : Command → Command
as_sent (Command.fix_drive_data p) =
    Command.fix_drive_data (record p { head_unload_time = p.head_load_time })
as_sent c = c

-- The fields of the manual have two bits for the drive and one for the head, and take bytes.
abbrev pub IsPlace : ℕ → ℕ → List ℕ → Type 0
IsPlace drive head rest = (drive < 4) × (head < 2) × All IsByte rest

abbrev pub IsValid : Command → Type 0
IsValid (Command.readtrack p u) =
    IsPlace p.drive p.head_number
      (place p.cylinder p.head p.sector p.sector_size p.track_length p.length_of_gap3 p.data_length)
IsValid (Command.write_sector p u) =
    IsPlace p.drive p.head_number
      (place p.cylinder p.head p.sector p.sector_size p.track_length p.length_of_gap3 p.data_length)
IsValid (Command.write_deleted_sector p u) =
    IsPlace p.drive p.head_number
      (place p.cylinder p.head p.sector p.sector_size p.track_length p.length_of_gap3 p.data_length)
IsValid (Command.read_sector p u) =
    IsPlace p.drive p.head_number
      (place p.cylinder p.head p.sector p.sector_size p.track_length p.length_of_gap3 p.data_length)
IsValid (Command.read_deleted_sector p u) =
    IsPlace p.drive p.head_number
      (place p.cylinder p.head p.sector p.sector_size p.track_length p.length_of_gap3 p.data_length)
IsValid (Command.fix_drive_data p) = (p.step_rate < 16) × (p.head_load_time < 16)
IsValid (Command.check_drive_status p u) = IsPlace p.drive p.head_number []
IsValid (Command.calibrate_drive p) = IsPlace p.drive p.head_number []
IsValid Command.check_interrupt = Unit {0}
IsValid (Command.read_sector_id p u) = IsPlace p.drive p.head_number []
IsValid (Command.seek_head p) = IsPlace p.drive p.head_number (p.cylinder ∷ [])
IsValid (Command.configure p) = (1 ≤ p.treshold_val) × (p.treshold_val ≤ 16) × (p.precomp_val < 256)
IsValid Command.check_version = Unit {0}
IsValid (Command.lock b) = Unit {0}

track_byte :
    (mfm sk : Bool)
    → bit_or (bit_or 0x2 (flag mfm 0x40)) (flag sk 0x20) ≡ command_byte 2 false mfm sk
track_byte true true = refl
track_byte true false = refl
track_byte false true = refl
track_byte false false = refl

write_byte :
    (mt mfm : Bool)
    → (bit_or (bit_or 0x5 (flag mfm 0x40)) (flag mt 0x80) ≡ command_byte 5 mt mfm false)
      × (bit_or (bit_or 0x9 (flag mfm 0x40)) (flag mt 0x80) ≡ command_byte 9 mt mfm false)
write_byte true true = (refl, refl)
write_byte true false = (refl, refl)
write_byte false true = (refl, refl)
write_byte false false = (refl, refl)

lock_byte : (b : Bool) → (if b then 0x94 else 0x14) ≡ 20 + of_bool b * 128
lock_byte true = refl
lock_byte false = refl

abbrev mode_byte : ℕ → Bool → Bool → Bool → ℕ
mode_byte v poll fifo seek =
    bit_or (bit_or (bit_or (u8 (v + 255)) (of_bool poll * 2 ^ 4)) (of_bool fifo * 2 ^ 5))
      (of_bool seek * 2 ^ 6)

abbrev mode_agrees : Bool → Bool → Bool → ℕ → Bool
mode_agrees poll fifo seek v =
    mode_byte (v + 1) poll fifo seek
    == of_bool seek * 64 + of_bool fifo * 32 + of_bool poll * 16 + v

mode_byte_lem : (poll fifo seek : Bool) (v : ℕ) → v < 16 → mode_agrees poll fifo seek v ≡ true
unfolding all_below
mode_byte_lem true true true v h = all_below_sound (mode_agrees true true true) 16 refl v h
mode_byte_lem true true false v h = all_below_sound (mode_agrees true true false) 16 refl v h
mode_byte_lem true false true v h = all_below_sound (mode_agrees true false true) 16 refl v h
mode_byte_lem true false false v h = all_below_sound (mode_agrees true false false) 16 refl v h
mode_byte_lem false true true v h = all_below_sound (mode_agrees false true true) 16 refl v h
mode_byte_lem false true false v h = all_below_sound (mode_agrees false true false) 16 refl v h
mode_byte_lem false false true v h = all_below_sound (mode_agrees false false true) 16 refl v h
mode_byte_lem false false false v h = all_below_sound (mode_agrees false false false) 16 refl v h

-- The bytes of the drive data.
data_bytes :
    (s h : ℕ) (ndm : Bool)
    → s < 16
    → h < 16
    → (u8 (bit_or h (s * 2 ^ 4)) ≡ s * 16 + h)
      × (u8 (bit_or (of_bool ndm) (h * 2 ^ 1)) ≡ h * 2 + of_bool ndm)
data_bytes s h ndm hs hh =
    (omega (arith, bit_or_comm h (s * 2 ^ 4), bit_or_fields 4 s h hh), flagged ndm)
  where
    flagged : (ndm : Bool) → u8 (bit_or (of_bool ndm) (h * 2 ^ 1)) ≡ h * 2 + of_bool ndm
    flagged true = omega (arith, bit_or_comm 1 (h * 2 ^ 1), bit_or_fields 1 h 1 (omega arith))
    flagged false = omega (arith, bit_or_comm 0 (h * 2 ^ 1), bit_or_fields 1 h 0 (omega arith))

-- The blocks are those of the manual, for the command as it is sent.
pub block_lem : (c : Command) → IsValid c → block c ≡ manual (as_sent c)
unfolding readtrack_block write_block fix_drive_data_block head_block seek_block configure_block
block_lem (Command.readtrack p u) (hd, hh, fits) =
    rw (track_byte p.double_density p.skip_mode, drive_head_lem p.drive p.head_number hd hh) refl
block_lem (Command.write_sector p u) (hd, hh, fits) =
    let first = write_byte p.multitrack p.double_density in
    rw (first.0, drive_head_lem p.drive p.head_number hd hh) refl
block_lem (Command.write_deleted_sector p u) (hd, hh, fits) =
    let first = write_byte p.multitrack p.double_density in
    rw (first.1, drive_head_lem p.drive p.head_number hd hh) refl
block_lem (Command.read_sector p u) (hd, hh, fits) = read_block_lem 6 p (omega arith) hd hh
block_lem (Command.read_deleted_sector p u) (hd, hh, fits) = read_block_lem 12 p (omega arith) hd hh
block_lem (Command.fix_drive_data p) (hs, hl) =
    let bytes = data_bytes p.step_rate p.head_load_time p.ndm hs hl in rw (bytes.0, bytes.1) refl
block_lem (Command.check_drive_status p u) (hd, hh, fits) =
    rw (drive_head_lem p.drive p.head_number hd hh) refl
block_lem (Command.calibrate_drive p) (hd, hh, fits) =
    rw (drive_head_lem p.drive p.head_number hd hh) refl
block_lem Command.check_interrupt ok = refl
block_lem (Command.read_sector_id p u) (hd, hh, fits) =
    rw (drive_head_lem p.drive p.head_number hd hh) refl
block_lem (Command.seek_head p) (hd, hh, fits) =
    rw (drive_head_lem p.drive p.head_number hd hh) refl
block_lem (Command.configure p) (lo, hi, fits) =
    let mode =
      mode_byte_lem p.drive_polling_disable p.fifo_disable p.implied_seek_enable
        (p.treshold_val - 1) (omega arith) in
    let same : p.treshold_val - 1 + 1 ≡ p.treshold_val = omega arith in
    let third : mode_byte p.treshold_val p.drive_polling_disable p.fifo_disable
          p.implied_seek_enable
        ≡ of_bool p.implied_seek_enable * 64
          + of_bool p.fifo_disable * 32
          + of_bool p.drive_polling_disable * 16
          + (p.treshold_val - 1) =
      rw (← same) (ground (arith, mode)) in
    rw third refl
block_lem Command.check_version ok = refl
block_lem (Command.lock b) ok = rw (lock_byte b) refl
