-- ===== src/Boot.antt =====
-- Stage 1: stage1/boot.c.
pub mod Copy
pub mod Retries
pub mod Init
pub mod InitLaws
pub mod Tasks
pub mod Whole
