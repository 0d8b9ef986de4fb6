-- ===== src/Stage4/Walk.antt =====
-- The page walk of the processor's manual, over the tables that stage4/paging.c fills in.
use toy_bootloader.Common.{
  refl, ℕ, zero, suc, ◌+◌, ◌*◌, ◌/◌, ◌%◌, ◌^◌, ◌<◌, ◌≡◌, none, some, Option, arith, ◌==◌,
  if◌then◌else◌, ◌&&◌, bit_or-pow, ltb, leb,
}
use toy_bootloader.Real.{Segments}
use toy_bootloader.Stage4.Paging.{
  Tables, Control, set_bit, set_addr, store, table_entry, page_entry, map_pages, setup_paging,
}

abbrev pub bit : ℕ → ℕ → ℕ
bit w b = w / 2 ^ b % 2

-- The address in a table entry: bits 12 to 51.
abbrev pub addr_of : ℕ → ℕ
addr_of w = w / 2 ^ 12 % 2 ^ 40 * 2 ^ 12

-- Four levels, with a page of 2 MiB at the third: the walk of a write by the kernel. A table that is
-- not one of the three, a missing bit, or a smaller page ends it.
unfoldable pub walk : Tables → Control → ℕ → Option ℕ
walk t c va =
    let e4 = t.pml4 (va / 2 ^ 39 % 512) in
    let e3 = t.pdp (va / 2 ^ 30 % 512) in
    let e2 = t.pd (va / 2 ^ 21 % 512) in
    if (addr_of c.cr3 == t.pml4_at)
      && ((bit e4 0 == 1) && (bit e4 1 == 1) && (addr_of e4 == t.pdp_at))
      && ((bit e3 0 == 1) && (bit e3 1 == 1) && (bit e3 7 == 0) && (addr_of e3 == t.pd_at))
      && ((bit e2 0 == 1) && (bit e2 1 == 1) && (bit e2 7 == 1))
    then some (e2 / 2 ^ 21 % 2 ^ 31 * 2 ^ 21 + va % 2 ^ 21)
    else none

-- The tables lie at page boundaries in the low 4 GiB, as `aligned(0x1000)` and 32-bit code have it.
pub record IsAligned (t : Tables) : Type 0 where
  pub pml4 : t.pml4_at % 4096 ≡ 0
  pub pdp : t.pdp_at % 4096 ≡ 0
  pub pd : t.pd_at % 4096 ≡ 0
  pub pml4_low : t.pml4_at < 2 ^ 32
  pub pdp_low : t.pdp_at < 2 ^ 32
  pub pd_low : t.pd_at < 2 ^ 32

-- The loop writes the entries from `i` on and no other.
map_pages_lem :
    (n i : ℕ) (pd : ℕ → ℕ) (j : ℕ)
    → map_pages n i pd j ≡ (if leb i j && ltb j (i + n) then page_entry j else pd j)
unfolding map_pages
map_pages_lem zero i pd j = ground arith
map_pages_lem (suc n) i pd j = ground (arith, map_pages_lem n (i + 1) (store pd i (page_entry i)) j)

page_entry_lem : (i : ℕ) → i < 512 → page_entry i ≡ i * 2 ^ 21 + 131
unfolding set_bit set_addr
page_entry_lem i h = ground arith

table_entry_lem : (a : ℕ) → a % 4096 ≡ 0 → a < 2 ^ 32 → table_entry a ≡ a + 3
unfolding set_bit set_addr
table_entry_lem a h lt = ground arith

-- After `setup_paging`, from any contents of the tables and any registers, the page walk takes every
-- virtual address of the first GiB to the same physical address, writable; long mode, PAE and paging
-- are on, and the code selector is that of entry 3, each of the five others that of entry 2, both of
-- this table and at privilege 0.
pub setup_paging_identity :
    (t : Tables) (c : Control) (s : Segments) (va : ℕ)
    → IsAligned t
    → va < 2 ^ 30
    → let (t', c', s') = setup_paging t c s in
      (walk t' c' va ≡ some va)
      × (bit c'.cr4 5 ≡ 1)
      × (bit c'.efer 8 ≡ 1)
      × (bit c'.cr0 31 ≡ 1)
      × (s'.seg_cs ≡ record { rpl = 0; ti = 0; index = 3 })
      × (s'.seg_ds ≡ record { rpl = 0; ti = 0; index = 2 })
      × (s'.seg_ss ≡ s'.seg_ds)
      × (s'.seg_es ≡ s'.seg_ds)
      × (s'.seg_fs ≡ s'.seg_ds)
      × (s'.seg_gs ≡ s'.seg_ds)
unfolding walk setup_paging
setup_paging_identity t c s va a h =
    let i = va / 2 ^ 21 % 512 in
    let small : i < 512 = omega arith in
    let top : va / 2 ^ 39 % 512 ≡ 0 = omega arith in
    let next : va / 2 ^ 30 % 512 ≡ 0 = omega arith in
    (
      ground (
        arith,
        map_pages_lem 512 0 t.pd i,
        page_entry_lem i small,
        table_entry_lem t.pdp_at a.pdp a.pdp_low,
        table_entry_lem t.pd_at a.pd a.pd_low,
      ),
      bit_or-pow 5 c.cr4,
      bit_or-pow 8 c.efer,
      bit_or-pow 31 c.cr0,
      refl,
      refl,
      refl,
      refl,
      refl,
      refl,
    )
