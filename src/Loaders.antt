-- ===== src/Loaders.antt =====
-- The drivers of the stages: stage3/load.c, stage3/copy_stage4.c, stage3/breakpoint.c,
-- loader_protected/load.c, stage4/load.c and stage5/load.c.
pub mod Defs
pub mod Table
pub mod Disk
pub mod Clear
pub mod Late
pub mod Order
pub mod Protected
pub mod Entry
