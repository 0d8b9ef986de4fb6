-- ===== src/Tests/Screen.antt =====
-- The screen, the segment descriptors and the page tables at concrete values.
use toy_bootloader.Common.{◌≡◌, refl, some, [], ◌∷◌, ◌++◌, arith}
use toy_bootloader.Real.{RealTrace}
use toy_bootloader.Stage2.Screen.{color_code, yellow, update_progress_bar}
use toy_bootloader.Stage2.ScreenLaws.{shown, video, line_cells}
use toy_bootloader.Stage2.Bar.{update_progress_bar_lem}
use toy_bootloader.Stage2.Gdt.{gdt_segment_create, fill_segments}
use toy_bootloader.Stage2.Flat.{
  gdt_segment_create_lem, fill_segments-IsFlat, base_of, limit_of, IsFlat, entry,
}
use toy_bootloader.Stage4.Paging.{setup_paging}
use toy_bootloader.Stage4.Walk.{setup_paging_identity, walk, bit}
use toy_bootloader.Tests.World.{bios, real_machine, segments, blank, tables, control}

update_progress_bar_lem_example :
    (t : RealTrace) × (update_progress_bar bios 2 3 real_machine
      ≡ some (tt, record real_machine { trace = t }))
    × ((video t).cells
        ≡ shown real_machine
          ++ line_cells 1 20 (color_code yellow) (b'[' ∷ b'=' ∷ b'>' ∷ b' ' ∷ b']' ∷ []))
update_progress_bar_lem_example =
    update_progress_bar_lem bios 2 3 real_machine (omega arith) (omega arith) (omega arith)
      (omega arith)

gdt_segment_create_lem_example :
    let e = gdt_segment_create blank 0x12345678 0x12345 3 in
    (base_of e ≡ 0x12345678)
    × (limit_of e ≡ 0x12FFF)
    × (e.segment_present ≡ 1)
    × (e.true_bit ≡ 1)
    × (e.privilelge_level ≡ 3)
    × (e.mode_64_bit ≡ 0)
    × (e.op_size ≡ 1)
    × (e.code_sel ≡ 0)
    × (e.direction_conforming ≡ 0)
    × (e.accessed ≡ 0)
    × (e.readable_writable ≡ 1)
    × (e.available_system_software ≡ 0)
gdt_segment_create_lem_example =
    gdt_segment_create_lem blank 0x12345678 0x12345 3 (omega arith) (omega arith) (omega arith)

fill_segments-IsFlat_example :
    let s' = fill_segments segments in
    (entry s' s'.seg_cs ≡ some s'.gdt1)
    × (entry s' s'.seg_ds ≡ some s'.gdt2)
    × (s'.seg_cs.rpl ≡ 0)
    × (s'.seg_ds.rpl ≡ 0)
    × (s'.seg_ss ≡ s'.seg_ds)
    × (s'.seg_es ≡ s'.seg_ds)
    × (s'.seg_fs ≡ s'.seg_ds)
    × (s'.seg_gs ≡ s'.seg_ds)
    × (IsFlat s'.gdt1 × (s'.gdt1.code_sel ≡ 1) × (s'.gdt1.op_size ≡ 1) × (s'.gdt1.mode_64_bit ≡ 0))
    × (IsFlat s'.gdt2 × (s'.gdt2.code_sel ≡ 0) × (s'.gdt2.op_size ≡ 1))
    × (IsFlat s'.gdt3 × (s'.gdt3.code_sel ≡ 1) × (s'.gdt3.op_size ≡ 0) × (s'.gdt3.mode_64_bit ≡ 1))
    × (s'.gdt0 ≡ segments.gdt0)
fill_segments-IsFlat_example = fill_segments-IsFlat segments refl refl refl

setup_paging_identity_example :
    let (t', c', s') = setup_paging tables control segments in
    (walk t' c' 0x123456 ≡ some 0x123456)
    × (bit c'.cr4 5 ≡ 1)
    × (bit c'.efer 8 ≡ 1)
    × (bit c'.cr0 31 ≡ 1)
    × (s'.seg_cs ≡ record { rpl = 0; ti = 0; index = 3 })
    × (s'.seg_ds ≡ record { rpl = 0; ti = 0; index = 2 })
    × (s'.seg_ss ≡ s'.seg_ds)
    × (s'.seg_es ≡ s'.seg_ds)
    × (s'.seg_fs ≡ s'.seg_ds)
    × (s'.seg_gs ≡ s'.seg_ds)
setup_paging_identity_example =
    setup_paging_identity tables control segments 0x123456
      (record {
        pml4 = refl;
        pdp = refl;
        pd = refl;
        pml4_low = omega arith;
        pdp_low = omega arith;
        pd_low = omega arith;
      })
      (omega arith)
