-- ===== src/Boot/Copy.antt =====
-- `copy_kernel`: the sectors of a stage are read by the disk BIOS, with up to three tries. The
-- segment register ES, which the code clears, and the memory that the BIOS fills are not modelled.
use toy_bootloader.Common.{
  ℕ, zero, suc, ◌+◌, ◌*◌, ◌/◌, ◌%◌, ◌^◌, true, false, some, bit_and, bit_or, ◌==◌, if◌then◌else◌,
  u8, not, ◌&&◌,
}
use toy_bootloader.Machine.{DiskProps}
use toy_bootloader.Real.{Regs, Bios, R, pure, ◌>>=◌, stuck, do_int}

-- Where the read begins, each in a `uint8_t`.
pub record Start : Type 0 where
  pub c : ℕ
  pub h : ℕ
  pub s : ℕ

unfoldable pub start_of : DiskProps → ℕ → Start
start_of p index =
    if p.max_head_number == 0 then record { c = 0; h = 0; s = u8 (index + 1) } else record {
      c = u8 (index / (p.max_head_number * p.max_sector_number));
      h = u8 (index / p.max_sector_number % p.max_head_number);
      s = u8 (index % p.max_sector_number + 1);
    }

-- The registers of the read: function 2 with the count, head and drive, cylinder and sector, and the
-- destination.
unfoldable pub read_regs : DiskProps → Start → ℕ → ℕ → Regs
read_regs p a count dest = record {
  ax = bit_or 0x0200 count;
  bx = dest;
  cx = bit_or (bit_or (bit_and a.c 0xFF * 2 ^ 8) (bit_and a.c 0x300 / 2 ^ 2)) (bit_and a.s 0x3f);
  dx = bit_or (a.h * 2 ^ 8) p.drive_number;
}

abbrev pub reset_regs : DiskProps → Regs
reset_regs p = record { ax = 0; bx = 0; cx = 0; dx = p.drive_number }

-- The `do` loop, with the tries that are left; `tries` starts at 3, so it does not wrap.
unfoldable pub copy_tries : Bios → DiskProps → Regs → ℕ → R (Unit {0})
copy_tries env p regs zero = pure tt
copy_tries env p regs (suc n) = do
  ignored ← do_int env 0x13 (reset_regs p)
  reply ← do_int env 0x13 regs
  elim (bit_and reply.regs.ax 0xFF00 == 0) [ true ↦ pure tt | false ↦ copy_tries env p regs n ]

-- A division by zero, for a disk without sectors, is a fault.
unfoldable pub copy_kernel : Bios → ℕ → ℕ → ℕ → R (Unit {0})
unfolding start_of read_regs
copy_kernel env index count dest = do
  p ← λ m. some (m.props, m)
  elim (not (p.max_head_number == 0) && p.max_sector_number == 0) [
    | true ↦ stuck
    | false ↦ copy_tries env p (read_regs p (start_of p index) count dest) 3
  ]
