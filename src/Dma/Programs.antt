-- ===== src/Dma/Programs.antt =====
-- What the functions of shared/dma.h leave in the registers of the chip.
use toy_bootloader.Common.{ℕ, ◌/◌, ◌%◌, ◌<◌, ◌≡◌, arith}
use toy_bootloader.Dma.Defs.{
  DmaModeSel, DmaModeInit, DmaModeTransfer, DmaModeIncdec, sel_code, init_code, transfer_code,
  incdec_code, dma_mode,
}

-- The mode byte holds each of its five fields apart, for every channel of either chip.
pub dma_mode_fields :
    (ch : ℕ) (tr : DmaModeTransfer) (init : DmaModeInit) (incdec : DmaModeIncdec) (sel : DmaModeSel)
    → ch < 4
    → let v = dma_mode ch tr init incdec sel in
      (v % 4 ≡ ch)
      × (v / 4 % 4 ≡ transfer_code tr)
      × (v / 16 % 2 ≡ init_code init)
      × (v / 32 % 2 ≡ incdec_code incdec)
      × (v / 64 ≡ sel_code sel)
unfolding dma_mode
dma_mode_fields ch tr init incdec sel h = ground arith
