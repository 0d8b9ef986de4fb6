-- ===== src/Boot/Retries.antt =====
-- How often `copy_kernel` tries, and what it asks the BIOS for.
use toy_bootloader.Common.{
  ℕ, zero, suc, ◌+◌, ◌-◌, ◌*◌, ◌/◌, ◌%◌, ◌^◌, ◌≤◌, ◌<◌, ◌≡◌, ◌⊎◌, inl, inr, refl, ap, ◌∙◌, Bool,
  true, false, some, ◌∷◌, arith, bit_and, bit_or, ◌==◌, bit_or_fields, bit_and_mask, Bool-cases,
  digits_of, same_below, same_below_sound,
}
use native.Mathlib.Nat.{mod-lt, div-le_self}
use toy_bootloader.Machine.{DiskProps}
use toy_bootloader.Real.{RealTrace, Regs, int, Bios, RealMachine}
use toy_bootloader.Boot.Copy.{Start, start_of, read_regs, reset_regs, copy_tries, copy_kernel}

-- Block number of cylinder, head and sector, as the registers of the disk BIOS give them: CH has the
-- low 8 bits of the cylinder, CL its 2 high bits and the sector from 1, DH the head.
abbrev pub block_of : DiskProps → Regs → ℕ
block_of p r =
    ((r.cx / 2 ^ 8 + r.cx / 2 ^ 6 % 4 * 2 ^ 8) * p.max_head_number + r.dx / 2 ^ 8)
      * p.max_sector_number
    + (r.cx % 2 ^ 6 - 1)

high_bits : (c : ℕ) → c < 256 → (bit_and c 0xFF ≡ c) × (bit_and c 0x300 ≡ 0)
unfolding same_below
high_bits c h = (
  same_below_sound (λ c. bit_and c 0xFF) (λ c. c) 256 refl c h,
  same_below_sound (λ c. bit_and c 0x300) (λ c. 0) 256 refl c h,
)

cylinder_word :
    (c s : ℕ)
    → c < 256
    → s < 64
    → bit_or (bit_or (bit_and c 0xFF * 2 ^ 8) (bit_and c 0x300 / 2 ^ 2)) (bit_and s 0x3f)
      ≡ c * 256 + s
cylinder_word c s hc hs = ground (
  arith,
  high_bits c hc,
  bit_or_fields 8 c 0 (omega arith),
  bit_or_fields 8 c s (omega arith),
  bit_and_mask 6 s,
)

regs_block :
    (p : DiskProps) (a : Start) (count dest : ℕ)
    → a.c < 256
    → a.s < 64
    → p.drive_number < 256
    → block_of p (read_regs p a count dest)
      ≡ (a.c * p.max_head_number + a.h) * p.max_sector_number + (a.s - 1)
unfolding read_regs
regs_block p a count dest hc hs hd =
    let r = read_regs p a count dest in
    let word : r.cx ≡ a.c * 256 + a.s = cylinder_word a.c a.s hc hs in
    let c : r.cx / 2 ^ 8 + r.cx / 2 ^ 6 % 4 * 2 ^ 8 ≡ a.c = omega (arith, word) in
    let h : r.dx / 2 ^ 8 ≡ a.h = omega (arith, bit_or_fields 8 a.h p.drive_number hd) in
    let s : r.cx % 2 ^ 6 - 1 ≡ a.s - 1 = omega (arith, word) in rw (c, h, s) refl

start_of_lem :
    (p : DiskProps) (index : ℕ)
    → index < 256
    → 0 < p.max_head_number
    → p.max_head_number < 256
    → 0 < p.max_sector_number
    → p.max_sector_number < 64
    → start_of p index ≡ record {
      c = index / (p.max_head_number * p.max_sector_number);
      h = index / p.max_sector_number % p.max_head_number;
      s = index % p.max_sector_number + 1;
    }
unfolding start_of
start_of_lem p index hi hh hh' hs hs' = ground (
  arith,
  mod-lt index hs,
  mod-lt (index / p.max_sector_number) hh,
  div-le_self index (p.max_head_number * p.max_sector_number),
)

-- For a disk as the BIOS describes it, with at most 63 sectors to the track and 255 heads, the
-- registers of the read name the block `index`, which is a byte.
pub read_regs-block_of :
    (p : DiskProps) (index count dest : ℕ)
    → index < 256
    → 0 < p.max_head_number
    → p.max_head_number < 256
    → 0 < p.max_sector_number
    → p.max_sector_number < 64
    → p.drive_number < 256
    → block_of p (read_regs p (start_of p index) count dest) ≡ index
read_regs-block_of p index count dest hi hh hh' hs hs' hd =
    let a : Start = record {
      c = index / (p.max_head_number * p.max_sector_number);
      h = index / p.max_sector_number % p.max_head_number;
      s = index % p.max_sector_number + 1;
    } in
    rw (start_of_lem p index hi hh hh' hs hs') (
      regs_block p a count dest
        (omega (arith, div-le_self index (p.max_head_number * p.max_sector_number)))
        (omega (arith, mod-lt index hs)) hd
      ∙ omega (arith, digits_of index p.max_head_number p.max_sector_number))

-- One try asks for a reset and for the read.
abbrev pub tried : DiskProps → Regs → RealTrace → RealTrace
tried p r t = int 0x13 r ∷ int 0x13 (reset_regs p) ∷ t

abbrev pub after : DiskProps → Regs → ℕ → RealTrace → RealTrace
after p r zero t = t
after p r (suc n) t = after p r n (tried p r t)

module _ (env : Bios) (p : DiskProps) (r : Regs) where
  -- Whether the BIOS reports no error for the try that begins after `t`.
  abbrev pub good : RealTrace → Bool
  good t = bit_and (env.bios (tried p r t)).regs.ax 0xFF00 == 0

  abbrev pub Fails : ℕ → RealTrace → Type 0
  Fails k t = (j : ℕ) → j < k → good (after p r j t) ≡ false

  Fails-suc : (k : ℕ) (t : RealTrace) → good t ≡ false → Fails k (tried p r t) → Fails (suc k) t
  Fails-suc k t e h zero lt = e
  Fails-suc k t e h (suc j) lt = h j (omega arith)

  copy_tries_lem :
      (n : ℕ) (m : RealMachine)
      → (k : ℕ) × (k ≤ n)
        × (copy_tries env p r (suc n) m ≡ some (tt, record m { trace = after p r (suc k) m.trace }))
        × Fails k m.trace
        × ((good (after p r k m.trace) ≡ true) ⊎ (k ≡ n))
  unfolding copy_tries
  copy_tries_lem zero m = elim (Bool-cases (good m.trace)) [
    | inl ok ↦ (0, omega arith, ground (arith, ok), (λ j lt. absurd (omega arith)), inl ok)
    | inr bad ↦ (0, omega arith, ground (arith, bad), (λ j lt. absurd (omega arith)), inr refl)
  ]
  copy_tries_lem (suc n) m = elim (Bool-cases (good m.trace)) [
    | inl ok ↦ (0, omega arith, ground (arith, ok), (λ j lt. absurd (omega arith)), inl ok)
    | inr bad ↦
        let (k, le, run, fails, last) = copy_tries_lem n (record m { trace = tried p r m.trace }) in
        (
          suc k,
          omega arith,
          ground (arith, bad, run),
          Fails-suc k m.trace bad fails,
          elim last [ inl ok ↦ inl ok | inr e ↦ inr (ap suc e) ],
        )
  ]

-- `copy_kernel` returns on every disk that has sectors, or that is not described yet: it tries one
-- to three times, each a reset and the same read; every try but the last has failed, and the last
-- has succeeded unless it is the third. Nothing but the trace changes.
pub copy_kernel_tries :
    (env : Bios) (index count dest : ℕ) (m : RealMachine)
    → (m.props.max_head_number ≡ 0) ⊎ (0 < m.props.max_sector_number)
    → let p = m.props in
      let r = read_regs p (start_of p index) count dest in
      (k : ℕ) × (k ≤ 2)
      × (copy_kernel env index count dest m
          ≡ some (tt, record m { trace = after p r (suc k) m.trace }))
      × Fails env p r k m.trace
      × ((good env p r (after p r k m.trace) ≡ true) ⊎ (k ≡ 2))
unfolding copy_kernel
copy_kernel_tries env index count dest m h =
    let p = m.props in
    let r = read_regs p (start_of p index) count dest in
    let (k, le, run, fails, last) = copy_tries_lem env p r 2 m in
    (k, le, ground (arith, run, h), fails, last)
