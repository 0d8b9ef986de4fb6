-- ===== src/Dma.antt =====
-- The DMA controller: shared/dma.h, and what stage3/floppy.c programs through it.
pub mod Defs
pub mod Chip
pub mod Programs
