-- ===== src/Stage4/Paging.antt =====
-- stage4/paging.c. A table entry is the 64-bit word of `struct pg_base`: `set_addr` writes the whole
-- word, and the later assignments set single bits of it.
use toy_bootloader.Common.{ℕ, zero, suc, ◌+◌, ◌*◌, ◌/◌, ◌%◌, ◌^◌, ◌==◌, if◌then◌else◌, bit_or}
use toy_bootloader.Machine.{SegRegister}
use toy_bootloader.Real.{Segments}

-- The assignment of 1 to a field of one bit at position `b`.
unfoldable pub set_bit : ℕ → ℕ → ℕ
set_bit b w = if w / 2 ^ b % 2 == 0 then w + 2 ^ b else w

-- Positions of the fields of `struct pg_base`.
abbrev pub present : ℕ
present = 0

abbrev pub writable : ℕ
writable = 1

abbrev pub huge_null : ℕ
huge_null = 7

-- `uint64_t` from a pointer of 32 bits.
unfoldable pub set_addr : ℕ → ℕ
set_addr addr = addr % 2 ^ 32

-- The tables of the stage, each at an address that the linker chose.
pub record Tables : Type 0 where
  pub pml4_at : ℕ
  pub pdp_at : ℕ
  pub pd_at : ℕ
  pub pml4 : ℕ → ℕ
  pub pdp : ℕ → ℕ
  pub pd : ℕ → ℕ

-- The registers that the stage changes; `efer` is the low word of the model register.
pub record Control : Type 0 where
  pub cr0 : ℕ
  pub cr3 : ℕ
  pub cr4 : ℕ
  pub efer : ℕ

abbrev pub store : (ℕ → ℕ) → ℕ → ℕ → ℕ → ℕ
store f i v j = if j == i then v else f j

abbrev pub table_entry : ℕ → ℕ
table_entry addr = set_bit writable (set_bit present (set_addr addr))

-- `(void*)(0x200000 * i)`
abbrev pub page_entry : ℕ → ℕ
page_entry i = set_bit huge_null (set_bit writable (set_bit present (set_addr (0x200000 * i))))

-- The `for` loop, with the rounds that are left.
unfoldable pub map_pages : ℕ → ℕ → (ℕ → ℕ) → ℕ → ℕ
unfolding set_bit set_addr
map_pages zero i pd = pd
map_pages (suc n) i pd = map_pages n (i + 1) (store pd i (page_entry i))

unfoldable pub setup_tables : Tables → Tables
unfolding set_bit set_addr
setup_tables t = record t {
  pml4 = store t.pml4 0 (table_entry t.pdp_at);
  pdp = store t.pdp 0 (table_entry t.pd_at);
  pd = map_pages 512 0 t.pd;
}

-- cr3, then the PAE bit of cr4, long mode in EFER, and paging in cr0.
unfoldable pub enable_paging : Tables → Control → Control
enable_paging t c = record c {
  cr3 = t.pml4_at;
  cr4 = bit_or c.cr4 (2 ^ 5);
  efer = bit_or c.efer (2 ^ 8);
  cr0 = bit_or c.cr0 (2 ^ 31);
}

-- The selectors that `stage5_start` loads: entry 3 for code, entry 2 for data.
unfoldable pub set_selectors : Segments → Segments
set_selectors s =
    let cs : SegRegister = record { rpl = 0; ti = 0; index = 3 } in
    let ds : SegRegister = record { rpl = 0; ti = 0; index = 2 } in
    record s { seg_es = ds; seg_fs = ds; seg_gs = ds; seg_ds = ds; seg_ss = ds; seg_cs = cs }

unfoldable pub setup_paging : Tables → Control → Segments → Tables × Control × Segments
unfolding setup_tables enable_paging set_selectors
setup_paging t c s = let t' = setup_tables t in (t', enable_paging t' c, set_selectors s)
