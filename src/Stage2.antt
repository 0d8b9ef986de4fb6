-- ===== src/Stage2.antt =====
-- Stage 2: print.c, load.c, a20.c, cpuid.c, disk_props.c, gdt.c, int.c, mem.c and misc.c.
pub mod Screen
pub mod ScreenLaws
pub mod Bar
pub mod Printing
pub mod Load
pub mod LoadLaws
pub mod Gdt
pub mod A20
pub mod Memory
pub mod Queries
pub mod Cpuid
pub mod Table
pub mod TableLaws
pub mod CpuidLaws
pub mod QueryLaws
pub mod A20Laws
pub mod Flat
