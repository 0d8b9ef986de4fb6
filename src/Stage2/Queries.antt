-- ===== src/Stage2/Queries.antt =====
-- What stage 2 asks the disk BIOS: stage2/disk_props.c and stage2/int.c.
use toy_bootloader.Common.{
  ℕ, ◌+◌, ◌*◌, ◌/◌, ◌^◌, true, false, List, [], ◌∷◌, some, bit_and, bit_or, ◌==◌, if◌then◌else◌, u8,
  u16,
}
use toy_bootloader.Machine.{DiskProps}
use toy_bootloader.Real.{Regs, value, text, Bios, R, ◌>>=◌, ◌>>◌, do_int}
use toy_bootloader.Stage2.Screen.{printf, Color, color_char}
use Prim.Native.String.{String}

-- `errs`, the codes of the disk BIOS; the first entry of a code counts.
abbrev pub errs : List (ℕ × String)
errs =
    (0x00, "successful completion")
    ∷ (0x01, "invalid function in AH or invalid parameter")
    ∷ (0x02, "address mark not found")
    ∷ (0x03, "disk write-protected")
    ∷ (0x04, "sector not found/read error")
    ∷ (0x05, "reset failed (hard disk)")
    ∷ (0x05, "data did not verify correctly (TI Professional PC)")
    ∷ (0x06, "disk changed (floppy)")
    ∷ (0x07, "drive parameter activity failed (hard disk)")
    ∷ (0x08, "DMA overrun")
    ∷ (0x09, "data boundary error (attempted DMA across 64K boundary or >80h sectors)")
    ∷ (0x0A, "bad sector detected (hard disk)")
    ∷ (0x0B, "bad track detected (hard disk)")
    ∷ (0x0C, "unsupported track or invalid media")
    ∷ (0x0D, "invalid number of sectors on format (PS/2 hard disk)")
    ∷ (0x0E, "control data address mark detected (hard disk)")
    ∷ (0x0F, "DMA arbitration level out of range (hard disk)")
    ∷ (0x10, "uncorrectable CRC or ECC error on read")
    ∷ (0x11, "data ECC corrected (hard disk)")
    ∷ (0x20, "controller failure")
    ∷ (0x31, "no media in drive (IBM/MS INT 13 extensions)")
    ∷ (0x32, "incorrect drive type stored in CMOS (Compaq)")
    ∷ (0x40, "seek failed")
    ∷ (0x80, "timeout (not ready)")
    ∷ (0xAA, "drive not ready (hard disk)")
    ∷ (0xB0, "volume not locked in drive (INT 13 extensions)")
    ∷ (0xB1, "volume locked in drive (INT 13 extensions)")
    ∷ (0xB2, "volume not removable (INT 13 extensions)")
    ∷ (0xB3, "volume in use (INT 13 extensions)")
    ∷ (0xB4, "lock count exceeded (INT 13 extensions)")
    ∷ (0xB5, "valid eject request failed (INT 13 extensions)")
    ∷ (0xB6, "volume present but read protected (INT 13 extensions)")
    ∷ (0xBB, "undefined error (hard disk)")
    ∷ (0xCC, "write fault (hard disk)")
    ∷ (0xE0, "status register error (hard disk)")
    ∷ (0xFF, "sense operation failed (hard disk)")
    ∷ []

-- The loop of `errc` over the entries that are left.
unfoldable pub find_err : List (ℕ × String) → ℕ → String
find_err [] c = "no error for this code"
find_err ((err, msg) ∷ rest) c = if err == c then msg else find_err rest c

unfoldable pub errc : ℕ → String
unfolding find_err
errc c = find_err errs c

-- `HIGH` and `LOW`.
abbrev pub high : ℕ → ℕ
high a = bit_and (a / 2 ^ 8) 0xFF

abbrev pub low : ℕ → ℕ
low a = bit_and a 0xFF

-- The assignments of `disk_props`.
unfoldable pub props_of_reply : DiskProps → Regs → DiskProps
props_of_reply p r = record p {
  drive_types = low r.bx;
  cylinder_number = u16 (bit_or (high r.cx) (low r.cx / 2 ^ 5 * 2 ^ 8));
  max_sector_number = bit_and (low r.cx) 0x3F;
  max_head_number = u8 (high r.dx + 1);
  number_of_drives = low r.dx;
}

abbrev pub set_props : DiskProps → R (Unit {0})
set_props p m = some (tt, record m { props = p })

module _ (env : Bios) where
  unfoldable pub disk_props : R (Unit {0})
  unfolding props_of_reply errc color_char
  disk_props = do
    printf env "| reading disk properties\n" []
    p ← λ m. some (m.props, m)
    reply ← do_int env 0x13 (record { ax = 0x0800; bx = 0; cx = 0; dx = p.drive_number })
    elim (high reply.regs.ax == 0) [
      | false ↦ printf env "%ccannot read disk properties \"%s\"%c\n" (
          value (color_char Color.red)
          ∷ text (errc (high reply.regs.ax))
          ∷ value (color_char Color.light_gray)
          ∷ [])
      | true ↦ do
        set_props (props_of_reply p reply.regs)
        printf env "| drive_types = 0x%x\n" (value (props_of_reply p reply.regs).drive_types ∷ [])
        printf env "| cylinder_number = 0x%x\n"
            (value (props_of_reply p reply.regs).cylinder_number ∷ [])
        printf env "| max_sector_number = 0x%x\n"
            (value (props_of_reply p reply.regs).max_sector_number ∷ [])
        printf env "| max_head_number = 0x%x\n"
            (value (props_of_reply p reply.regs).max_head_number ∷ [])
        printf env "| number_of_drives = 0x%x\n"
            (value (props_of_reply p reply.regs).number_of_drives ∷ [])
    ]
