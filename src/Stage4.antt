-- ===== src/Stage4.antt =====
-- Stage 4: stage4/paging.c and shared/paging.h.
pub mod Paging
pub mod Walk
