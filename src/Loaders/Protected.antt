-- ===== src/Loaders/Protected.antt =====
-- loader_protected on a drive in good order.
use toy_bootloader.Common.{
  ℕ, ◌+◌, ◌-◌, ◌/◌, ◌%◌, ◌≤◌, ◌≡◌, ◌∙◌, refl, ap, true, false, some, [], arith, u8, ltb, leb, ◌&&◌,
  if◌then◌else◌,
}
use toy_bootloader.Machine.{Env, Machine, set_interrupt}
use toy_bootloader.Dma.Chip.{Channel, channel2, is_programmed}
use toy_bootloader.Floppy.Types.{CheckInterruptRes, ReadtrackRes}
use toy_bootloader.Floppy.Irq.{fpy_setup_idt}
use toy_bootloader.Floppy.Controller.{command, phase, in_buffer, IsDrive}
use toy_bootloader.Floppy.Reading.{IsReady}
use toy_bootloader.Floppy.Copying.{IsSane, block_byte, fpy_copy_bytes_lem}
use toy_bootloader.Loaders.Defs.{zero_bytes, Part, load_protected, reset_bss}
use toy_bootloader.Loaders.Clear.{zero_bytes_lem}

-- The byte that a part has at the address `a` of its place in memory.
abbrev pub part_byte : Env → (ℕ → ℕ → ℕ → ℕ → ℕ) → Part → ℕ → ℕ
part_byte env disk p a =
    block_byte env.props disk (u8 (p.first_section_index + (a - p.start) / 0x200))
      ((a - p.start) % 0x200)

setup_ready :
    (m : Machine)
    → phase m.trace ≡ command []
    → (m' : Machine) × (fpy_setup_idt m ≡ some (tt, m'))
      × IsReady m'
      × (m'.trace ≡ m.trace)
      × (m'.mem ≡ m.mem)
unfolding fpy_setup_idt set_interrupt
setup_ready m start =
    (_, refl, record { received = refl; handler = ground arith; start = start }, refl, refl)

module _ (env : Env) (fuel bound : ℕ) {initial : Channel} (disk : ℕ → ℕ → ℕ → ℕ → ℕ)
    (drive : IsDrive env initial bound disk) (small : bound ≤ 1000) (enough : bound ≤ fuel)
    (sane : IsSane env.props) (c : CheckInterruptRes) (uninit : ReadtrackRes) where
  -- On a drive as for `fpy_copy_bytes`, with no command under way and the DMA channel programmed, `load_protected` comes to its jump
  -- for every place of the two stages behind the transfer buffer and for every bss. Memory then holds
  -- stage 4 and stage 5 as they are on the disk, stage 5 over stage 4 where the two overlap, and zeros
  -- in the bss; every other byte outside the transfer buffer is as before.
  pub load_protected_lem :
      (s4 s5 : Part) (bss_start bss_end : ℕ) (m : Machine) (a : ℕ)
      → 0x1300 ≤ s4.start
      → 0x1300 ≤ s5.start
      → phase m.trace ≡ command []
      → is_programmed (channel2 initial m.trace) ≡ true
      → in_buffer a ≡ false
      → (m' : Machine) × (load_protected env fuel c uninit s4 s5 bss_start bss_end m
          ≡ some (tt, m'))
        × (m'.mem a ≡ (
            if leb bss_start a && ltb a bss_end
            then 0
            else if leb s5.start a && ltb a (s5.start + s5.size)
            then part_byte env disk s5 a
            else if leb s4.start a && ltb a (s4.start + s4.size)
            then part_byte env disk s4 a
            else m.mem a))
  unfolding load_protected reset_bss
  load_protected_lem s4 s5 bss_start bss_end m a lo4 lo5 start programmed out =
      let (m0, run0, ok0, same0, mem0) = setup_ready m start in
      let set0 = ap (λ t. is_programmed (channel2 initial t)) same0 ∙ programmed in
      let (m1, run1, ok1, kept1, mem1) =
        fpy_copy_bytes_lem env fuel bound disk drive small enough sane c uninit
          s4.first_section_index s4.start s4.size m0 a lo4 ok0 set0 out in
      let (m2, run2, ok2, kept2, mem2) =
        fpy_copy_bytes_lem env fuel bound disk drive small enough sane c uninit
          s5.first_section_index s5.start s5.size m1 a lo5 ok1 (ap is_programmed kept1 ∙ set0)
          out in
      (
        record m2 { mem = zero_bytes (bss_end - bss_start) bss_start m2.mem },
        ground (arith, run0, run1, run2),
        ground (
          arith,
          zero_bytes_lem (bss_end - bss_start) bss_start m2.mem a,
          mem2,
          mem1,
          ap (λ (f : ℕ → ℕ). f a) mem0,
        ),
      )
