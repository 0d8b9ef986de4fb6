-- ===== src/Floppy/Chs.antt =====
-- The geometry of `fpy_copy_bytes`.
use toy_bootloader.Common.{ℕ, ◌+◌, ◌-◌, ◌*◌, ◌≤◌, ◌<◌, ◌≡◌, arith, digits_of}
use native.Mathlib.Nat.{mod-lt}
use toy_bootloader.Machine.{DiskProps}
use toy_bootloader.Floppy.Read.{chs_of_lba}

-- For every disk with heads and sectors, cylinder, head and sector of a block number give it back,
-- the head is one of the disk's, and the sector is from 1 to the sectors of a track.
pub chs_of_lba_lem :
    (p : DiskProps) (lba : ℕ)
    → 0 < p.max_head_number
    → 0 < p.max_sector_number
    → let a = chs_of_lba p lba in
      ((a.c * p.max_head_number + a.h) * p.max_sector_number + (a.s - 1) ≡ lba)
      × (a.h < p.max_head_number)
      × (1 ≤ a.s)
      × (a.s ≤ p.max_sector_number)
unfolding chs_of_lba
chs_of_lba_lem p lba hh hs = (
  omega (arith, digits_of lba p.max_head_number p.max_sector_number),
  mod-lt _ hh,
  omega arith,
  omega (arith, mod-lt lba hs),
)
