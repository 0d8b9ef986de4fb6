-- ===== src/Stage2/Gdt.antt =====
-- stage2/gdt.c. A bit-field keeps its assigned value modulo its width.
use toy_bootloader.Common.{ℕ, ◌/◌, ◌%◌, ◌^◌, [], ◌∷◌, some, ltb, if◌then◌else◌}
use toy_bootloader.Machine.{SegRegister}
use toy_bootloader.Real.{lgdt, Bios, GdtSegDescriptor, Segments, R, ◌>>◌}
use toy_bootloader.Stage2.Screen.{printf}

unfoldable pub gdt_segment_create : GdtSegDescriptor → ℕ → ℕ → ℕ → GdtSegDescriptor
gdt_segment_create gdt base limit priv_level =
    let large = ltb 0xFFFF limit in
    let lim = if large then limit / 2 ^ 12 else limit in
    record gdt {
      granularity = if large then 1 else 0;
      seg_limit_1 = lim % 2 ^ 16;
      seg_limit_2 = lim / 2 ^ 16 % 2 ^ 4;
      base_address_1 = base % 2 ^ 16;
      base_address_2 = base / 2 ^ 16 % 2 ^ 8;
      base_address_3 = base / 2 ^ 24 % 2 ^ 8;
      true_bit = 1;
      privilelge_level = priv_level % 2 ^ 2;
      segment_present = 1;
      available_system_software = 0;
      mode_64_bit = 0;
      op_size = 1;
      readable_writable = 1;
    }

abbrev pub flat : GdtSegDescriptor → GdtSegDescriptor
flat gdt = gdt_segment_create gdt 0 0xFFFFFFFF 0

abbrev pub selector : ℕ → SegRegister
selector i = record { rpl = 0; ti = 0; index = i }

unfoldable pub fill_segments : Segments → Segments
unfolding gdt_segment_create
fill_segments s = record s {
  gdt1 = record (flat s.gdt1) { code_sel = 1 };
  gdt2 = record (flat s.gdt2) { code_sel = 0 };
  gdt3 = record (flat s.gdt3) { code_sel = 1; mode_64_bit = 1; op_size = 0 };
  seg_ss = selector 2;
  seg_es = selector 2;
  seg_fs = selector 2;
  seg_gs = selector 2;
  seg_ds = selector 2;
  seg_cs = selector 1;
}

-- `lgdt` loads the limit `sizeof(gdt) - 1` and the address of `gdt`.
unfoldable pub gdt_setup : Bios → R (Unit {0})
unfolding fill_segments
gdt_setup env = do
  printf env "| starting gdt setup\n" []
  λ m. some (tt, record m { trace = lgdt 31 ∷ m.trace; segments = fill_segments m.segments })
