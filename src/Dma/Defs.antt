-- ===== src/Dma/Defs.antt =====
-- shared/dma.h. A bit-field keeps its assigned value modulo its width; the first field is lowest.
use toy_bootloader.Common.{
  ℕ, ◌+◌, ◌-◌, ◌*◌, ◌/◌, ◌%◌, ◌^◌, Option, none, some, [], ◌∷◌, bit_and, ltb, if◌then◌else◌,
  get_elem?,
}
use toy_bootloader.Machine.{M, ◌>>◌, undefined, do_outb}

pub data DmaModeSel : Type 0 where
  demand single block cascade : DmaModeSel

pub data DmaModeInit : Type 0 where
  single_cycle init_auto : DmaModeInit

pub data DmaModeTransfer : Type 0 where
  transfer_verify transfer_read transfer_write : DmaModeTransfer

pub data DmaModeIncdec : Type 0 where
  increment decrement : DmaModeIncdec

abbrev pub sel_code : DmaModeSel → ℕ
sel_code demand = 0
sel_code single = 1
sel_code block = 2
sel_code cascade = 3

abbrev pub init_code : DmaModeInit → ℕ
init_code single_cycle = 0
init_code init_auto = 1

abbrev pub transfer_code : DmaModeTransfer → ℕ
transfer_code transfer_verify = 0
transfer_code transfer_read = 1
transfer_code transfer_write = 2

abbrev pub incdec_code : DmaModeIncdec → ℕ
incdec_code increment = 0
incdec_code decrement = 1

-- `union dma_mode`, by its value.
unfoldable pub dma_mode : ℕ → DmaModeTransfer → DmaModeInit → DmaModeIncdec → DmaModeSel → ℕ
dma_mode channel tr init incdec sel =
    channel % 4
    + transfer_code tr % 4 * 2 ^ 2
    + init_code init % 2 * 2 ^ 4
    + incdec_code incdec % 2 * 2 ^ 5
    + sel_code sel % 4 * 2 ^ 6

-- `union dma_control`, by its value.
unfoldable pub dma_control : ℕ → ℕ → ℕ
dma_control channel disable = channel % 4 + disable % 2 * 2 ^ 2

unfoldable pub dma_mask_channel : ℕ → M (Unit {0})
unfolding dma_control
dma_mask_channel chan = do_outb 0x0a (dma_control chan 1)

unfoldable pub dma_unmask_channel : ℕ → M (Unit {0})
unfolding dma_control
dma_unmask_channel chan = do_outb 0x0a (dma_control chan 0)

-- The tables of ports; there is no entry past channel 7.
unfoldable pub dma_get_port_address : ℕ → Option ℕ
dma_get_port_address = get_elem? (0x00 ∷ 0x02 ∷ 0x04 ∷ 0x06 ∷ 0xC0 ∷ 0xC4 ∷ 0xC8 ∷ 0xCC ∷ [])

unfoldable pub dma_get_port_count : ℕ → Option ℕ
dma_get_port_count = get_elem? (0x01 ∷ 0x03 ∷ 0x05 ∷ 0x07 ∷ 0xC2 ∷ 0xC6 ∷ 0xCA ∷ 0xCE ∷ [])

unfoldable pub dma_get_port_page : ℕ → Option ℕ
dma_get_port_page = get_elem? (0x87 ∷ 0x83 ∷ 0x81 ∷ 0x81 ∷ 0x8F ∷ 0x8B ∷ 0x89 ∷ 0x8A ∷ [])

-- A table is read out of bounds: undefined behaviour.
abbrev pub with_port : Option ℕ → (ℕ → M (Unit {0})) → M (Unit {0})
with_port none k = undefined
with_port (some port) k = k port

unfoldable pub dma_setup_address : ℕ → ℕ → M (Unit {0})
unfolding dma_get_port_address
dma_setup_address chan addr =
    with_port (dma_get_port_address chan)
      λ port. do do_outb port (bit_and addr 0xFF); do_outb port (addr / 2 ^ 8)

unfoldable pub dma_setup_count : ℕ → ℕ → M (Unit {0})
unfolding dma_get_port_count
dma_setup_count chan count =
    with_port (dma_get_port_count chan)
      λ port. do do_outb port (bit_and count 0xFF); do_outb port (count / 2 ^ 8)

unfoldable pub dma_setup_page : ℕ → ℕ → M (Unit {0})
unfolding dma_get_port_page
dma_setup_page chan val = with_port (dma_get_port_page chan) λ port. do_outb port val

unfoldable pub dma_reset_flipflop : ℕ → M (Unit {0})
dma_reset_flipflop chan = do_outb (if ltb 3 chan then 0xD8 else 0x0C) 0xFF

unfoldable pub dma_set_mode :
    ℕ → DmaModeSel → DmaModeIncdec → DmaModeInit → DmaModeTransfer → M (Unit {0})
unfolding dma_mode
dma_set_mode chan sel incdec init tr =
    do_outb (if ltb 3 chan then 0xD6 else 0x0B)
      (dma_mode (if ltb 3 chan then chan - 4 else chan) tr init incdec sel)
