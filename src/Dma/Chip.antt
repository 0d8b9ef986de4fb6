-- ===== src/Dma/Chip.antt =====
-- The registers of the first 8237 for one of its channels, as its manual describes them. The
-- flip-flop chooses the low or the high byte of a 16-bit register, and turns on every access.
use toy_bootloader.Common.{
  ℕ, ◌+◌, ◌*◌, ◌/◌, ◌%◌, ◌^◌, Bool, true, false, not, [], ◌∷◌, ◌==◌, if◌then◌else◌, ◌&&◌,
}
use toy_bootloader.Machine.{Trace, inb, outb, idle}

pub record Channel : Type 0 where
  pub high : Bool
  pub addr : ℕ
  pub count : ℕ
  pub page : ℕ
  pub masked : Bool
  pub mode : ℕ

-- After power-up the registers are not known.
module _ (initial : Channel) (chan addr_port count_port page_port : ℕ) where
  -- One byte of a 16-bit register.
  abbrev pub put_byte : Bool → ℕ → ℕ → ℕ
  put_byte false old v = old / 2 ^ 8 * 2 ^ 8 + v
  put_byte true old v = v * 2 ^ 8 + old % 2 ^ 8

  unfoldable pub store : Channel → ℕ → ℕ → Channel
  store c p v =
      if p == addr_port
      then record c { addr = put_byte c.high c.addr v; high = not c.high }
      else if p == count_port
      then record c { count = put_byte c.high c.count v; high = not c.high }
      else if p == page_port
      then record c { page = v }
      else if p == 0x0A
      then (if v % 4 == chan then record c { masked = v / 4 % 2 == 1 } else c)
      else if p == 0x0B
      then (if v % 4 == chan then record c { mode = v / 4 } else c)
      else if p == 0x0C
      then record c { high = false }
      else c

  unfoldable pub channel : Trace → Channel
  unfolding store
  channel [] = initial
  channel (inb p v ∷ t) = channel t
  channel (outb p v ∷ t) = store (channel t) p v
  channel (idle ∷ t) = channel t

-- Channel 2 of the chip, which the floppy controller has: its ports are those that its manual gives.
abbrev pub channel2 : Channel → Trace → Channel
channel2 initial = channel initial 2 0x04 0x05 0x81

-- The channel transfers 0x300 bytes from the device to address 0x1000, in single transfers, upwards,
-- and loads its registers again at their end.
abbrev pub is_programmed : Channel → Bool
is_programmed c =
    c.addr == 0x1000 && (c.count == 0x2FF && (c.page == 0 && (not c.masked && c.mode == 0x15)))
