-- ===== src/Stage2/Flat.antt =====
-- What the processor reads out of the descriptors that stage2/gdt.c writes.
use toy_bootloader.Common.{
  ℕ, ◌+◌, ◌*◌, ◌/◌, ◌^◌, ◌<◌, ◌≡◌, none, some, Option, arith, ltb, if◌then◌else◌, ◌==◌,
}
use toy_bootloader.Machine.{SegRegister}
use toy_bootloader.Real.{GdtSegDescriptor, Segments}
use toy_bootloader.Stage2.Gdt.{gdt_segment_create, fill_segments}

-- Base and limit as the processor's manual puts them together: with the granularity bit, the limit
-- counts pages of 4096 bytes and the low 12 bits are ones.
abbrev pub base_of : GdtSegDescriptor → ℕ
base_of d = d.base_address_1 + d.base_address_2 * 2 ^ 16 + d.base_address_3 * 2 ^ 24

abbrev pub raw_limit : GdtSegDescriptor → ℕ
raw_limit d = d.seg_limit_1 + d.seg_limit_2 * 2 ^ 16

abbrev pub limit_of : GdtSegDescriptor → ℕ
limit_of d = if d.granularity == 1 then raw_limit d * 4096 + 4095 else raw_limit d

-- For every 32-bit base and limit the descriptor is present, of the code or data kind, 32-bit, and of
-- the privilege that was asked for; it decodes to that base, and to that limit rounded up to the end
-- of its page, or exactly to it up to 0xFFFF. The segment is writable, or readable for code, and the
-- bit for system software is clear. The three bits that the function does not write, for code,
-- direction and access, are those of the descriptor before.
pub gdt_segment_create_lem :
    (d : GdtSegDescriptor) (base limit priv : ℕ)
    → base < 2 ^ 32
    → limit < 2 ^ 32
    → priv < 4
    → let e = gdt_segment_create d base limit priv in
      (base_of e ≡ base)
      × (limit_of e ≡ (if ltb 0xFFFF limit then limit / 4096 * 4096 + 4095 else limit))
      × (e.segment_present ≡ 1)
      × (e.true_bit ≡ 1)
      × (e.privilelge_level ≡ priv)
      × (e.mode_64_bit ≡ 0)
      × (e.op_size ≡ 1)
      × (e.code_sel ≡ d.code_sel)
      × (e.direction_conforming ≡ d.direction_conforming)
      × (e.accessed ≡ d.accessed)
      × (e.readable_writable ≡ 1)
      × (e.available_system_software ≡ 0)
unfolding gdt_segment_create
gdt_segment_create_lem d base limit priv hb hl hp = ground arith

-- A segment of the whole 4 GiB at privilege 0: a data segment that does not expand down, or a code
-- segment that is not conforming.
abbrev pub IsFlat : GdtSegDescriptor → Type 0
IsFlat e =
    (base_of e ≡ 0)
    × (limit_of e ≡ 0xFFFFFFFF)
    × (e.segment_present ≡ 1)
    × (e.true_bit ≡ 1)
    × (e.privilelge_level ≡ 0)
    × (e.readable_writable ≡ 1)
    × (e.direction_conforming ≡ 0)

-- The entry of the table that a selector chooses; one with the table bit is not for this table.
abbrev pub entry : Segments → SegRegister → Option GdtSegDescriptor
entry s r =
    if r.ti == 1
    then none
    else if r.index == 0
    then some s.gdt0
    else if r.index == 1
    then some s.gdt1
    else if r.index == 2
    then some s.gdt2
    else if r.index == 3
    then some s.gdt3
    else none

-- If the bits for direction and conforming of the entries 1 to 3, which the code does not write, are 0
-- at the start, then after `gdt_setup`, whatever else the table held, the code selector chooses a flat
-- 32-bit code segment, the five others choose one flat 32-bit data segment, all of privilege 0, and entry 3,
-- for stage 4, is a flat 64-bit code segment with the operand size bit clear, as long mode wants it.
-- Entry 0 is as it was.
pub fill_segments-IsFlat :
    (s : Segments)
    → s.gdt1.direction_conforming ≡ 0
    → s.gdt2.direction_conforming ≡ 0
    → s.gdt3.direction_conforming ≡ 0
    → let s' = fill_segments s in
      (entry s' s'.seg_cs ≡ some s'.gdt1)
      × (entry s' s'.seg_ds ≡ some s'.gdt2)
      × (s'.seg_cs.rpl ≡ 0)
      × (s'.seg_ds.rpl ≡ 0)
      × (s'.seg_ss ≡ s'.seg_ds)
      × (s'.seg_es ≡ s'.seg_ds)
      × (s'.seg_fs ≡ s'.seg_ds)
      × (s'.seg_gs ≡ s'.seg_ds)
      × (IsFlat s'.gdt1
          × (s'.gdt1.code_sel ≡ 1)
          × (s'.gdt1.op_size ≡ 1)
          × (s'.gdt1.mode_64_bit ≡ 0))
      × (IsFlat s'.gdt2 × (s'.gdt2.code_sel ≡ 0) × (s'.gdt2.op_size ≡ 1))
      × (IsFlat s'.gdt3
          × (s'.gdt3.code_sel ≡ 1)
          × (s'.gdt3.op_size ≡ 0)
          × (s'.gdt3.mode_64_bit ≡ 1))
      × (s'.gdt0 ≡ s.gdt0)
unfolding fill_segments
fill_segments-IsFlat s up1 up2 up3 = ground arith
