-- ===== src/Stage3.antt =====
-- The tasks of stage 3: stage3/floppy.c, idt.c, timer.c, breakpoint.c, copy_stage4.c and load.c.
pub mod Drive
pub mod Dma
pub mod Pic
pub mod PicLaws
pub mod Sleep
pub mod Idt
pub mod IdtLaws
pub mod Start
pub mod Stops
pub mod Calibrating
pub mod Test
