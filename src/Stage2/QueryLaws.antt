-- ===== src/Stage2/QueryLaws.antt =====
-- What the queries of stage 2 leave in the globals.
use toy_bootloader.Common.{
  ℕ, ◌+◌, ◌*◌, ◌/◌, ◌%◌, ◌^◌, ◌≡◌, refl, some, [], ◌∷◌, inl, inr, arith, bit_and, bit_or,
  bit_or_comm, bit_and_mask, bit_or_fields, ◌==◌, if◌then◌else◌, u8, u16, Bool-cases,
}
use toy_bootloader.Machine.{DiskProps}
use toy_bootloader.Real.{Regs, int, value, text, Bios, RealMachine}
use toy_bootloader.Stage2.Screen.{Color, color_char}
use toy_bootloader.Stage2.Printing.{printed, printf-Prints}
use toy_bootloader.Stage2.Queries.{errc, high, low, props_of_reply, disk_props}

low_lem : (a : ℕ) → low a ≡ a % 2 ^ 8
low_lem a = bit_and_mask 8 a

high_lem : (a : ℕ) → high a ≡ a / 2 ^ 8 % 2 ^ 8
high_lem a = bit_and_mask 8 (a / 2 ^ 8)

cylinder_lem :
    (cx : ℕ)
    → u16 (bit_or (high cx) (low cx / 2 ^ 5 * 2 ^ 8)) ≡ cx / 2 ^ 8 % 2 ^ 8 + cx / 2 ^ 5 % 8 * 2 ^ 8
cylinder_lem cx = omega (
  arith,
  high_lem cx,
  low_lem cx,
  bit_or_comm (high cx) (low cx / 2 ^ 5 * 2 ^ 8),
  bit_or_fields 8 (low cx / 2 ^ 5) (high cx) (omega (arith, high_lem cx)),
)

props_of_reply_lem :
    (p : DiskProps) (r : Regs)
    → props_of_reply p r ≡ record p {
      drive_types = r.bx % 2 ^ 8;
      cylinder_number = r.cx / 2 ^ 8 % 2 ^ 8 + r.cx / 2 ^ 5 % 8 * 2 ^ 8;
      max_sector_number = r.cx % 2 ^ 6;
      max_head_number = (r.dx / 2 ^ 8 + 1) % 2 ^ 8;
      number_of_drives = r.dx % 2 ^ 8;
    }
unfolding props_of_reply
props_of_reply_lem p r =
    let sectors : bit_and (low r.cx) 0x3F ≡ r.cx % 2 ^ 6 =
      omega (arith, bit_and_mask 6 (low r.cx), low_lem r.cx) in
    let heads : u8 (high r.dx + 1) ≡ (r.dx / 2 ^ 8 + 1) % 2 ^ 8 = omega (arith, high_lem r.dx) in
    rw (sectors, heads, cylinder_lem r.cx, low_lem r.bx, low_lem r.dx) refl

-- `disk_props` always returns. If the disk BIOS, asked with function 8 for the boot drive, gives an
-- error in AH, then the properties are as before. Otherwise they are what CL and DH say of sectors
-- and heads, DH being the last head; of the cylinder number, which has its low byte in CH and two high
-- bits in CL 6 and 7, the code stores the three bits CL 5 to 7 above CH.
pub disk_props_lem :
    (env : Bios) (m : RealMachine)
    → let asked = printf-Prints env "| reading disk properties\n" [] m in
      let r =
        (env.bios (
          int 0x13 (record { ax = 0x0800; bx = 0; cx = 0; dx = m.props.drive_number })
          ∷ asked.trace)).regs in
      (m' : RealMachine) × (disk_props env m ≡ some (tt, m'))
      × (m'.props ≡ (
          if r.ax / 2 ^ 8 % 2 ^ 8 == 0
          then record (m.props) {
            drive_types = r.bx % 2 ^ 8;
            cylinder_number = r.cx / 2 ^ 8 % 2 ^ 8 + r.cx / 2 ^ 5 % 8 * 2 ^ 8;
            max_sector_number = r.cx % 2 ^ 6;
            max_head_number = (r.dx / 2 ^ 8 + 1) % 2 ^ 8;
            number_of_drives = r.dx % 2 ^ 8;
          }
          else m.props))
      × (m'.cpu ≡ m.cpu)
      × (m'.segments ≡ m.segments)
unfolding disk_props
disk_props_lem env m =
    let asked = printf-Prints env "| reading disk properties\n" [] m in
    let t =
      int 0x13 (record { ax = 0x0800; bx = 0; cx = 0; dx = m.props.drive_number }) ∷ asked.trace in
    let r = (env.bios t).regs in
    let m0 = record (printed m asked) { trace = t } in
    elim (Bool-cases (high r.ax == 0)) [
      | inl ok ↦
          let p = props_of_reply m.props r in
          let m1 = record m0 { props = p } in
          let d1 = printf-Prints env "| drive_types = 0x%x\n" (value p.drive_types ∷ []) m1 in
          let m2 = printed m1 d1 in
          let d2 =
            printf-Prints env "| cylinder_number = 0x%x\n" (value p.cylinder_number ∷ []) m2 in
          let m3 = printed m2 d2 in
          let d3 =
            printf-Prints env "| max_sector_number = 0x%x\n" (value p.max_sector_number ∷ []) m3 in
          let m4 = printed m3 d3 in
          let d4 =
            printf-Prints env "| max_head_number = 0x%x\n" (value p.max_head_number ∷ []) m4 in
          let m5 = printed m4 d4 in
          let d5 =
            printf-Prints env "| number_of_drives = 0x%x\n" (value p.number_of_drives ∷ []) m5 in
          (
            printed m5 d5,
            ground (
              arith, asked.returns, ok, d1.returns, d2.returns, d3.returns, d4.returns, d5.returns,
            ),
            ground (arith, ok, high_lem r.ax, props_of_reply_lem m.props r),
            refl,
            refl,
          )
      | inr failed ↦
          let d =
            printf-Prints env "%ccannot read disk properties \"%s\"%c\n"
              (value (color_char Color.red)
                ∷ text (errc (high r.ax))
                ∷ value (color_char Color.light_gray)
                ∷ [])
              m0 in
          (
            printed m0 d,
            ground (arith, asked.returns, failed, d.returns),
            ground (arith, failed, high_lem r.ax),
            refl,
            refl,
          )
    ]
