-- ===== src/Boot/Init.antt =====
-- `init` of stage1/boot.c, up to the jump to stage 3. What the disk BIOS reads is code for the
-- processor; here the init table of stage 2 is an argument.
use toy_bootloader.Common.{ℕ, List, u8}
use toy_bootloader.Real.{Bios, R, ◌>>◌}
use toy_bootloader.Boot.Copy.{copy_kernel}
use toy_bootloader.Stage2.Load.{RealInit, stage2_load}

-- The variables that the linker sets.
pub record LinkerVariables : Type 0 where
  pub content_start : ℕ
  pub stage_2_first_section_index : ℕ
  pub stage_2_load_count : ℕ
  pub stage_3_first_section_index : ℕ
  pub stage_3_load_count : ℕ
  pub shared_start : ℕ
  pub shared_first_section_index : ℕ
  pub shared_load_count : ℕ

-- Index and count are converted to `uint8_t`.
unfoldable pub init : Bios → LinkerVariables → List RealInit → R (Unit {0})
init env v inits = do
  copy_kernel env (u8 v.shared_first_section_index) (u8 v.shared_load_count) v.shared_start
  copy_kernel env (u8 v.stage_2_first_section_index) (u8 v.stage_2_load_count) v.content_start
  stage2_load env inits
  copy_kernel env (u8 v.stage_3_first_section_index) (u8 v.stage_3_load_count) v.content_start
