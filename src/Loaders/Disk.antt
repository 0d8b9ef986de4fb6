-- ===== src/Loaders/Disk.antt =====
-- Stage 3's entries for the disk, and then loader_protected, on a drive in good order.
use toy_bootloader.Common.{
  ℕ, ◌+◌, ◌≤◌, ◌≡◌, refl, ap, ◌∙◌, true, false, some, List, [], ◌∷◌, arith, ltb, leb, ◌&&◌,
  if◌then◌else◌,
}
use toy_bootloader.Machine.{Env, Machine, number, text}
use toy_bootloader.Dma.Chip.{Channel, channel2, is_programmed}
use toy_bootloader.Floppy.Types.{CheckInterruptRes, ReadtrackRes}
use toy_bootloader.Floppy.Controller.{command, phase, in_buffer, IsDrive}
use toy_bootloader.Floppy.Reading.{IsReady}
use toy_bootloader.Floppy.Copying.{IsSane, fpy_copy_bytes_lem}
use toy_bootloader.Floppy.Sensing.{Starts}
use toy_bootloader.Stage3.Dma.{reading, floppy_dma-Sets, floppy_dma_setup_read-Sets}
use toy_bootloader.Stage3.Start.{floppy_init_lem}
use toy_bootloader.Loaders.Defs.{Init, Part, load_protected, run_inits, copy_stage4}
use toy_bootloader.Loaders.Table.{
  init_entry, dma_entry, read_entry, test_entry, copy_entry, disk_entries,
}
use toy_bootloader.Loaders.Protected.{part_byte, load_protected_lem}
use toy_bootloader.Stage3.Test.{CanRead, Printed, printf_lem, tested}

module _ (env : Env) (fuel bound : ℕ) {initial : Channel} (disk : ℕ → ℕ → ℕ → ℕ → ℕ)
    (drive : IsDrive env initial bound disk) (small : bound ≤ 1000) (enough : bound ≤ fuel)
    (sane : IsSane env.props) (c : CheckInterruptRes) (uninit : ReadtrackRes) where
  stage4_copied :
      (part : Part) (m : Machine) (a : ℕ)
      → 0x1300 ≤ part.start
      → CanRead initial m
      → in_buffer a ≡ false
      → (m' : Machine) × (copy_stage4 env fuel c uninit part m ≡ some (tt, m'))
        × CanRead initial m'
        × (m'.mem a ≡ (
            if leb part.start a && ltb a (part.start + part.size)
            then part_byte env disk part a
            else m.mem a))
  unfolding copy_stage4
  stage4_copied part m a lo ok out =
      let d =
        printf_lem env "copying %d bytes from floppy disk sector %d to 0x%p\n"
          (number part.size ∷ number part.first_section_index ∷ number part.start ∷ []) m in
      let ok0 = d.able initial ok in
      let (m1, run1, ok1, kept, mem) =
        fpy_copy_bytes_lem env fuel bound disk drive small enough sane c uninit
          part.first_section_index part.start part.size d.after a lo ok0.driver ok0.channel out in
      let e = printf_lem env "success\n" [] m1 in
      (
        e.after,
        ground (arith, d.returns, run1, e.returns),
        e.able initial (record { driver = ok1; channel = ap is_programmed kept ∙ ok0.channel }),
        ap (λ (f : ℕ → ℕ). f a) e.mem ∙ mem ∙ ground (arith, ap (λ (f : ℕ → ℕ). f a) d.mem),
      )

  -- The line before the function of an entry.
  abbrev announced :
      (current count : ℕ) (f : Init) (m : Machine)
      → Printed env "executing `%s` in `%s` (%u of %u)\n"
          (text f.name ∷ text f.file ∷ number current ∷ number count ∷ [])
          m
  announced current count f m = printf_lem env _ _ m

  entered :
      (current count : ℕ) (f : Init) (fs : List Init) (m : Machine) {m1 m' : Machine}
      → f.fun (announced current count f m).after ≡ some (tt, m1)
      → run_inits env (current + 1) count fs m1 ≡ some (tt, m')
      → run_inits env current count (f ∷ fs) m ≡ some (tt, m')
  unfolding run_inits
  entered current count f fs m run rest =
      let d = announced current count f m in ground (arith, d.returns, run, rest)

  -- The DMA channel, between the start of the drive and its test.
  channel_set :
      (m : Machine)
      → IsReady m
      → (current count : ℕ)
      → let e0 = dma_entry env fuel c uninit in
        let e1 = read_entry env fuel c uninit in
        (m1 m2 : Machine) × (e0.fun (announced current count e0 m).after ≡ some (tt, m1))
        × (e1.fun (announced (current + 1) count e1 m1).after ≡ some (tt, m2))
        × CanRead initial m2
  channel_set m ok current count =
      let e0 = dma_entry env fuel c uninit in
      let e1 = read_entry env fuel c uninit in
      let d0 = announced current count e0 m in
      let ok0 = d0.ready ok in
      let s0 = floppy_dma-Sets env initial d0.after in
      let m1 = record (d0.after) { is_init = s0.init; trace = s0.trace } in
      let ok1 : IsReady m1 = record {
        received = ok0.received;
        handler = ok0.handler;
        start = s0.phase ∙ ok0.start;
      } in
      let d1 = announced (current + 1) count e1 m1 in
      let s1 = floppy_dma_setup_read-Sets env initial d1.after in
      let ok2 = d1.ready ok1 in
      (
        m1,
        record (d1.after) { is_init = s1.init; trace = s1.trace },
        s0.returns,
        s1.returns,
        record {
          driver = record {
            received = ok2.received;
            handler = ok2.handler;
            start = s1.phase ∙ ok2.start;
          };
          channel = ap is_programmed (s1.channel ∙ ap reading (d1.channel initial ∙ s0.channel));
        },
      )

  module _ (starts : Starts env bound) where
    -- On a drive in good order, whose contents go to memory as the DMA channel is programmed, whose
    -- controller has the version of the driver and raises an interrupt after each calibration, on a
    -- disk as for `fpy_copy_bytes`, and with no command under way and no request to the interrupt
    -- handler, the entries of stage 3's table from `floppy_init` on all return, whatever the registers
    -- of the DMA chip and the number of the first entry; the channel is then programmed. From the
    -- state that they leave, `load_protected` comes to its jump. Memory then holds the three parts as
    -- they are on the disk, for every place of them behind the transfer buffer: a byte of stage 5 goes
    -- before one of stage 4, that before one of the part that stage 3 loads, and the zeros of the bss
    -- before all; the bytes outside the three parts, the bss and the transfer buffer are those that
    -- stage 3 left.
    pub disk_entries_lem :
        (current count : ℕ) (part s4 s5 : Part) (bss_start bss_end : ℕ) (m : Machine) (a : ℕ)
        → 0x1300 ≤ part.start
        → 0x1300 ≤ s4.start
        → 0x1300 ≤ s5.start
        → m.fpy_irq_handle_state ≡ 0
        → phase m.trace ≡ command []
        → in_buffer a ≡ false
        → (m1 m2 : Machine) × (run_inits env current count (disk_entries env fuel c uninit part) m
            ≡ some (tt, m1))
          × (is_programmed (channel2 initial m1.trace) ≡ true)
          × (load_protected env fuel c uninit s4 s5 bss_start bss_end m1 ≡ some (tt, m2))
          × (m2.mem a ≡ (
              if leb bss_start a && ltb a bss_end
              then 0
              else if leb s5.start a && ltb a (s5.start + s5.size)
              then part_byte env disk s5 a
              else if leb s4.start a && ltb a (s4.start + s4.size)
              then part_byte env disk s4 a
              else if leb part.start a && ltb a (part.start + part.size)
              then part_byte env disk part a
              else m1.mem a))
    unfolding disk_entries run_inits
    disk_entries_lem current count part s4 s5 bss_start bss_end m a lo lo4 lo5 z start out =
        let e0 = init_entry env fuel c uninit in
        let e1 = dma_entry env fuel c uninit in
        let e2 = read_entry env fuel c uninit in
        let e3 = test_entry env fuel c uninit in
        let e5 = copy_entry env fuel c uninit part in
        let n1 = current + 1 in
        let n3 = n1 + 1 + 1 in
        let d0 = announced current count e0 m in
        let (m0, run0, ok0, z0, sent0) =
          floppy_init_lem env fuel bound disk drive starts small enough c uninit d0.after
            (d0.state ∙ z) (d0.phase ∙ start) in
        let (m1, m2, run1, run2, ok2) = channel_set m0 ok0 n1 count in
        let d3 = announced n3 count e3 m2 in
        let (m3, run3, ok3) =
          tested env fuel bound disk drive small enough sane c uninit d3.after
            (d3.able initial ok2) in
        let d4 = announced (n3 + 1) count e3 m3 in
        let (m4, run4, ok4) =
          tested env fuel bound disk drive small enough sane c uninit d4.after
            (d4.able initial ok3) in
        let d5 = announced (n3 + 1 + 1) count e5 m4 in
        let (m5, run5, ok5, mem5) = stage4_copied part d5.after a lo (d5.able initial ok4) out in
        let (m6, run6, mem6) =
          load_protected_lem env fuel bound disk drive small enough sane c uninit s4 s5 bss_start
            bss_end m5 a lo4 lo5 ok5.driver.start ok5.channel out in
        (
          m5,
          m6,
          entered current count e0 (e1 ∷ e2 ∷ e3 ∷ e3 ∷ e5 ∷ []) m run0 (
              entered n1 count e1 (e2 ∷ e3 ∷ e3 ∷ e5 ∷ []) m0 run1 (
                entered (n1 + 1) count e2 (e3 ∷ e3 ∷ e5 ∷ []) m1 run2 (
                  entered n3 count e3 (e3 ∷ e5 ∷ []) m2 run3 (
                    entered (n3 + 1) count e3 (e5 ∷ []) m3 run4
                      (entered (n3 + 1 + 1) count e5 [] m4 run5 refl))))),
          ok5.channel,
          run6,
          mem6 ∙ ground (arith, mem5),
        )
