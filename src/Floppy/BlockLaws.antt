-- ===== src/Floppy/BlockLaws.antt =====
-- The command blocks, as the controller's manual reads them.
use toy_bootloader.Common.{
  ℕ, ◌+◌, ◌*◌, ◌^◌, ◌<◌, ◌≡◌, refl, Bool, true, false, [], ◌∷◌, arith, bit_or, bit_or_comm,
  bit_or_fields, of_bool, all_below, all_below_sound, ◌==◌,
}
use toy_bootloader.Floppy.Types.{ReadSectorParams}
use toy_bootloader.Floppy.Block.{flag, drive_head, read_block}

-- The command byte: the code in the low five bits, then skip, double density and multitrack.
abbrev pub command_byte : ℕ → Bool → Bool → Bool → ℕ
command_byte code mt mfm sk = code + of_bool sk * 32 + of_bool mfm * 64 + of_bool mt * 128

abbrev encoded : ℕ → Bool → Bool → Bool → ℕ
encoded code mt mfm sk = bit_or (bit_or (bit_or code (flag mfm 0x40)) (flag mt 0x80)) (flag sk 0x20)

abbrev agrees : Bool → Bool → Bool → ℕ → Bool
agrees mt mfm sk code = encoded code mt mfm sk == command_byte code mt mfm sk

encoded_lem : (mt mfm sk : Bool) (code : ℕ) → code < 32 → agrees mt mfm sk code ≡ true
unfolding all_below
encoded_lem true true true code h = all_below_sound (agrees true true true) 32 refl code h
encoded_lem true true false code h = all_below_sound (agrees true true false) 32 refl code h
encoded_lem true false true code h = all_below_sound (agrees true false true) 32 refl code h
encoded_lem true false false code h = all_below_sound (agrees true false false) 32 refl code h
encoded_lem false true true code h = all_below_sound (agrees false true true) 32 refl code h
encoded_lem false true false code h = all_below_sound (agrees false true false) 32 refl code h
encoded_lem false false true code h = all_below_sound (agrees false false true) 32 refl code h
encoded_lem false false false code h = all_below_sound (agrees false false false) 32 refl code h

pub drive_head_lem : (d h : ℕ) → d < 4 → h < 2 → drive_head d h ≡ d + h * 4
unfolding drive_head
drive_head_lem d h hd hh = omega (arith, bit_or_comm d (h * 2 ^ 2), bit_or_fields 2 h d hd)

-- For every command code of five bits, drive below 4 and head 0 or 1, the block of the read commands
-- is: the code with the three flags in the bits 5 to 7 above it, the drive with the head in bit 2,
-- and then cylinder, head, sector, size, end of track, gap and data length, nine bytes in the order
-- of the controller's manual.
pub read_block_lem :
    (code : ℕ) (p : ReadSectorParams)
    → code < 32
    → p.drive < 4
    → p.head_number < 2
    → read_block code p
      ≡ command_byte code p.multitrack p.double_density p.skip_mode
        ∷ (p.drive + p.head_number * 4)
        ∷ p.cylinder
        ∷ p.head
        ∷ p.sector
        ∷ p.sector_size
        ∷ p.track_length
        ∷ p.length_of_gap3
        ∷ p.data_length
        ∷ []
unfolding read_block
read_block_lem code p hc hd hh =
    let first : encoded code p.multitrack p.double_density p.skip_mode
        ≡ command_byte code p.multitrack p.double_density p.skip_mode =
      ground (arith, encoded_lem p.multitrack p.double_density p.skip_mode code hc) in
    rw (first, drive_head_lem p.drive p.head_number hd hh) refl
