-- ===== src/Loaders/Clear.antt =====
-- What the clearing of a bss leaves in memory.
use toy_bootloader.Common.{
  ℕ, zero, suc, ◌+◌, ◌-◌, ◌≤◌, ◌≡◌, refl, some, arith, ltb, leb, ◌&&◌, if◌then◌else◌,
}
use toy_bootloader.Machine.{Machine, update}
use toy_bootloader.Loaders.Defs.{zero_bytes, memreset, reset_bss}

pub zero_bytes_lem :
    (n s : ℕ) (mem : ℕ → ℕ) (j : ℕ)
    → zero_bytes n s mem j ≡ (if leb s j && ltb j (s + n) then 0 else mem j)
unfolding zero_bytes
zero_bytes_lem zero s mem j = ground arith
zero_bytes_lem (suc n) s mem j = ground (arith, zero_bytes_lem n (s + 1) (update mem s 0) j)

-- For a region that does not end before it begins, stage 3's `memreset` and the `reset_bss` of
-- loader_protected both return the same machine, whose memory is 0 in the region and as before
-- outside, and whose trace is as before.
pub memreset-reset_bss :
    (s e : ℕ) (m : Machine) (j : ℕ)
    → s ≤ e
    → (m' : Machine) × (memreset s e m ≡ some (tt, m'))
      × (reset_bss s e m ≡ some (tt, m'))
      × (m'.mem j ≡ (if leb s j && ltb j e then 0 else m.mem j))
      × (m'.trace ≡ m.trace)
unfolding memreset reset_bss
memreset-reset_bss s e m j h =
    (_, ground arith, refl, ground (arith, zero_bytes_lem (e - s) s m.mem j), refl)
