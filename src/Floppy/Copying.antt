-- ===== src/Floppy/Copying.antt =====
-- `fpy_copy_bytes` on a drive in good order.
use toy_bootloader.Common.{
  ℕ, zero, suc, ◌+◌, ◌-◌, ◌*◌, ◌/◌, ◌%◌, ◌≤◌, ◌<◌, ◌≡◌, refl, ap, ◌∙◌, true, false, none, some,
  arith, u8, Bool-cases, inl, inr, ltb, leb, ◌&&◌, ◌==◌, if◌then◌else◌,
}
use toy_bootloader.Machine.{Env, Machine, DiskProps, update}
use toy_bootloader.Dma.Chip.{Channel, channel2, is_programmed}
use toy_bootloader.Floppy.Types.{CheckInterruptRes, ReadtrackRes}
use toy_bootloader.Floppy.Block.{read_block, seek_block, drive_head}
use toy_bootloader.Floppy.Commands.{fpy_cmd_seek_head}
use toy_bootloader.Floppy.Read.{
  Chs, chs_of_lba, seek_params, read_params, load_sector, copy_buffer, copy_loop, fpy_copy_bytes,
  transfer_buffer,
}
use toy_bootloader.Floppy.Controller.{in_sector, in_buffer, IsDrive}
use toy_bootloader.Floppy.Reading.{IsReady, Fits, channel2_fpy, sends, sector_read}
use toy_bootloader.Floppy.Frames.{fpy_send_command-Safe}

-- What the driver needs of the disk's properties.
pub record IsSane (p : DiskProps) : Type 0 where
  pub heads : 0 < p.max_head_number
  pub sectors : 0 < p.max_sector_number
  pub track : p.max_sector_number < 256

-- The byte `i` of a block, at the place of the disk that the geometry gives.
abbrev pub block_byte : DiskProps → (ℕ → ℕ → ℕ → ℕ → ℕ) → ℕ → ℕ → ℕ
block_byte p disk lba i = let a = chs_of_lba p lba in disk (u8 a.c) (u8 a.h) (u8 a.s) i

Fits-read_params : (p : DiskProps) (a : Chs) → IsSane p → Fits (read_params p a)
unfolding read_params read_block drive_head
Fits-read_params p a sane = let track = sane.track in record { bytes = omega arith; whole = refl }

copy_buffer_lem :
    (n i dest : ℕ) (mem : ℕ → ℕ) (a : ℕ)
    → i + n ≤ 0x200
    → 0x1300 ≤ dest
    → copy_buffer n i dest mem a ≡ (
        if leb (dest + i) a && ltb a (dest + i + n)
        then mem (transfer_buffer + (a - dest))
        else mem a)
unfolding copy_buffer
copy_buffer_lem zero i dest mem a h lo = ground arith
copy_buffer_lem (suc n) i dest mem a h lo =
    let mem' = update mem (dest + i) (mem (transfer_buffer + i)) in
    let rest = copy_buffer_lem n (i + 1) dest mem' a (omega arith) lo in
    elim (Bool-cases (a == dest + i)) [
      | inl here ↦
          let e : i ≡ a - dest = ground arith in
          ground (arith, rest, ap (λ k. mem (transfer_buffer + k)) e)
      | inr there ↦ ground (arith, rest)
    ]

pub product_nonzero : (a b : ℕ) → 0 < a → 0 < b → (a * b == 0) ≡ false
product_nonzero zero b ha hb = absurd (omega arith)
product_nonzero (suc a) b ha hb = grind arith

module _ (env : Env) (fuel bound : ℕ) {initial : Channel} (disk : ℕ → ℕ → ℕ → ℕ → ℕ)
    (drive : IsDrive env initial bound disk) (small : bound ≤ 1000) (enough : bound ≤ fuel)
    (sane : IsSane env.props) (c : CheckInterruptRes) (uninit : ReadtrackRes) where
  sector_loaded :
      (sector : ℕ) (m : Machine)
      → IsReady m
      → is_programmed (channel2 initial m.trace) ≡ true
      → (m' : Machine) × (load_sector env fuel c uninit sector m ≡ some (none, m'))
        × IsReady m'
        × (channel2 initial m'.trace ≡ channel2 initial m.trace)
        × ((j : ℕ) → in_sector j ≡ true → m'.mem j ≡ block_byte env.props disk sector (j - 0x1000))
        × ((j : ℕ) → in_buffer j ≡ false → m'.mem j ≡ m.mem j)
  unfolding load_sector fpy_cmd_seek_head seek_params read_params seek_block drive_head
  sector_loaded sector m ok programmed =
      let a = chs_of_lba env.props sector in
      let p = read_params env.props a in
      let q = seek_params env.props a in
      let nonzero =
        product_nonzero env.props.max_head_number env.props.max_sector_number sane.heads
          sane.sectors in
      let (t, run, seen) =
        sends env fuel bound disk drive small enough (seek_block q) m (omega arith) ok.start in
      let sent =
        fpy_send_command-Safe env (λ j. true) fuel (seek_block q) true m none
          (record m { trace = t }) run in
      let moved = channel2_fpy initial sent.ports in
      let (r, m', run2, good, ok', kept, mem, same) =
        sector_read env fuel bound disk drive small enough c p uninit (record m { trace = t })
          (Fits-read_params env.props a sane)
          (record { received = ok.received; handler = ok.handler; start = seen })
          (ap is_programmed moved ∙ programmed) in
      (m', rw nonzero (ground (arith, run, run2, good)), ok', kept ∙ moved, mem, same)

  -- The bytes that a copy of `count` bytes leaves at the address `a`.
  abbrev pub copied : ℕ → ℕ → ℕ → (ℕ → ℕ) → ℕ → ℕ
  copied sector dest count old a =
      if leb dest a && ltb a (dest + count)
      then block_byte env.props disk (u8 (sector + (a - dest) / 0x200)) ((a - dest) % 0x200)
      else old a

  -- One round and the rounds after it.
  copied-suc :
      (sector dest count chunk : ℕ) (old loaded : ℕ → ℕ) (a : ℕ)
      → sector < 256
      → 0x1300 ≤ dest
      → chunk ≡ (if ltb 0x200 count then 0x200 else count)
      → ((j : ℕ) → in_sector j ≡ true → loaded j ≡ block_byte env.props disk sector (j - 0x1000))
      → ((j : ℕ) → in_buffer j ≡ false → loaded j ≡ old j)
      → in_buffer a ≡ false
      → copied (u8 (sector + 1)) (dest + 0x200) (count - 0x200) (copy_buffer chunk 0 dest loaded) a
        ≡ copied sector dest count old a
  copied-suc sector dest count chunk old loaded a hs lo hc load kept out =
      let buf = copy_buffer_lem chunk 0 dest loaded a (ground arith) lo in
      let x = a - dest in
      let other = kept a out in
      elim (Bool-cases (leb dest a && ltb a (dest + count))) [
        | inr outside ↦ ground (arith, buf, other)
        | inl inside ↦ elim (Bool-cases (ltb x 0x200)) [
          | inl first ↦
              let byte = load (transfer_buffer + x) (ground arith) in
              let e1 : sector ≡ u8 (sector + x / 0x200) = ground arith in
              let e2 : transfer_buffer + x - 0x1000 ≡ x % 0x200 = ground arith in
              let same : block_byte env.props disk sector (transfer_buffer + x - 0x1000)
                  ≡ block_byte env.props disk (u8 (sector + x / 0x200)) (x % 0x200) =
                ap (λ s. block_byte env.props disk s (transfer_buffer + x - 0x1000)) e1
                ∙ ap (λ i. block_byte env.props disk (u8 (sector + x / 0x200)) i) e2 in
              ground (arith, buf, byte, same)
          | inr later ↦
              let e1 : u8 (u8 (sector + 1) + (a - (dest + 0x200)) / 0x200)
                  ≡ u8 (sector + x / 0x200) =
                ground arith in
              let e2 : (a - (dest + 0x200)) % 0x200 ≡ x % 0x200 = ground arith in
              let same : block_byte env.props disk
                    (u8 (u8 (sector + 1) + (a - (dest + 0x200)) / 0x200))
                    ((a - (dest + 0x200)) % 0x200)
                  ≡ block_byte env.props disk (u8 (sector + x / 0x200)) (x % 0x200) =
                ap (λ s. block_byte env.props disk s ((a - (dest + 0x200)) % 0x200)) e1
                ∙ ap (λ i. block_byte env.props disk (u8 (sector + x / 0x200)) i) e2 in
              ground (arith, same)
        ]
      ]

  copy_loop_lem :
      (rounds sector dest count : ℕ) (m : Machine)
      → sector < 256
      → 0x1300 ≤ dest
      → count ≤ rounds * 0x200
      → IsReady m
      → is_programmed (channel2 initial m.trace) ≡ true
      → (m' : Machine) × (copy_loop env fuel c uninit rounds sector dest count m ≡ some (none, m'))
        × IsReady m'
        × (channel2 initial m'.trace ≡ channel2 initial m.trace)
        × ((a : ℕ) → in_buffer a ≡ false → m'.mem a ≡ copied sector dest count m.mem a)
  unfolding copy_loop
  copy_loop_lem zero sector dest zero m hs lo enough_rounds ok programmed =
      (m, refl, ok, refl, λ a out. ground arith)
  copy_loop_lem zero sector dest (suc k) m hs lo enough_rounds ok programmed = absurd (omega arith)
  copy_loop_lem (suc rounds) sector dest zero m hs lo enough_rounds ok programmed =
      (m, refl, ok, refl, λ a out. ground arith)
  copy_loop_lem (suc rounds) sector dest (suc k) m hs lo enough_rounds ok programmed =
      let chunk = if ltb 0x200 (suc k) then 0x200 else suc k in
      let (m1, run1, ok1, set1, load, kept) = sector_loaded sector m ok programmed in
      let m2 = record m1 { mem = copy_buffer chunk 0 dest m1.mem } in
      let (m', run', ok', set', rest) =
        copy_loop_lem rounds (u8 (sector + 1)) (dest + 0x200) (suc k - 0x200) m2 (omega arith)
          (omega arith) (omega arith)
          (record { received = ok1.received; handler = ok1.handler; start = ok1.start })
          (ap is_programmed set1 ∙ programmed) in
      (
        m',
        ground (arith, run1, run'),
        ok',
        set' ∙ set1,
        λ a out.
            rest a out
            ∙ copied-suc sector dest (suc k) chunk m.mem m1.mem a hs lo refl load kept out,
      )

  -- On a drive in good order with the contents `disk`, whose answers come within a bound that the
  -- 1000 polls of the code and the fuel reach, on a disk with heads and with 1 to 255 sectors to the
  -- track, with the driver set up, no command under way and the DMA channel programmed for 0x300 bytes
  -- from the device to 0x1000, `fpy_copy_bytes` returns without an
  -- error for every sector index, every count, and every destination from 0x1300 on, behind the
  -- transfer buffer. Byte `i` of the destination is then byte `i % 512` of block
  -- `(sector + i / 512) % 256`, at the cylinder, head and sector that the disk's geometry gives; every
  -- other byte of memory outside the transfer buffer is as before, and the driver and the channel
  -- are set up for the next copy.
  pub fpy_copy_bytes_lem :
      (sector dest count : ℕ) (m : Machine) (a : ℕ)
      → 0x1300 ≤ dest
      → IsReady m
      → is_programmed (channel2 initial m.trace) ≡ true
      → in_buffer a ≡ false
      → (m' : Machine) × (fpy_copy_bytes env fuel c uninit sector dest count m ≡ some (none, m'))
        × IsReady m'
        × (channel2 initial m'.trace ≡ channel2 initial m.trace)
        × (m'.mem a ≡ (
            if leb dest a && ltb a (dest + count)
            then block_byte env.props disk (u8 (sector + (a - dest) / 0x200)) ((a - dest) % 0x200)
            else m.mem a))
  unfolding fpy_copy_bytes
  fpy_copy_bytes_lem sector dest count m a lo ok programmed out =
      let (m', run, ok', kept, mem) =
        copy_loop_lem (count / 0x200 + 1) (u8 sector) dest count m (omega arith) lo (omega arith) ok
          programmed in
      let wrap : u8 (u8 sector + (a - dest) / 0x200) ≡ u8 (sector + (a - dest) / 0x200) =
        omega arith in
      (m', run, ok', kept, rw (← wrap) (mem a out))
