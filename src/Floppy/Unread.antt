-- ===== src/Floppy/Unread.antt =====
-- What a read of a sector leaves in the controller when a status byte of its results is bad.
use toy_bootloader.Common.{
  ℕ, ◌≤◌, ◌≡◌, refl, ap, ◌∙◌, true, none, some, ◌∷◌, ◌++◌, ◌⊎◌, inl, inr, arith,
}
use toy_bootloader.Machine.{idle, waiting, Error, Handler, Env, Machine}
use toy_bootloader.Floppy.Types.{CheckInterruptRes, ReadtrackRes, ReadSectorParams}
use toy_bootloader.Floppy.Status.{}
use toy_bootloader.Floppy.Block.{read_block}
use toy_bootloader.Floppy.Irq.{floppy_irq, fpy_prepare_irq_no_handle}
use toy_bootloader.Floppy.IrqLaws.{fpy_wait_irq_returns, idles, handled}
use toy_bootloader.Floppy.Commands.{fpy_cmd_read_sector}
use toy_bootloader.Floppy.Polling.{fifo_writes}
use toy_bootloader.Floppy.Controller.{phase}
use toy_bootloader.Floppy.Reading.{IsReady, Fits}
use toy_bootloader.Floppy.Sensing.{View}
use toy_bootloader.Floppy.Showing.{
  Shows, RingsAfterRead, Refused, Ends, fpy_send_command-Refused, whole_sent, results_end,
  view-idles,
}

module _ (env : Env) (fuel bound : ℕ) (shows : Shows env bound) (reads : RingsAfterRead env bound)
    (small : bound ≤ 1000) (enough : bound ≤ fuel) where
  pub sector-Ends :
      (c : CheckInterruptRes) (p : ReadSectorParams) (uninit : ReadtrackRes) (m : Machine)
      → Fits p
      → IsReady m
      → (r : ReadtrackRes) × (m' : Machine) × (fpy_cmd_read_sector env fuel c p uninit m
          ≡ some (r, m'))
        × ((m'.fpy_irq_received ≡ waiting)
            × (m'.idt_handlers_32 floppy_irq ≡ Handler.fpy_interrupt_handler))
        × Ends (read_block 0x6 p) (fifo_writes m.trace ++ read_block 0x6 p) r.error m'.trace
  unfolding fpy_cmd_read_sector fpy_prepare_irq_no_handle phase
  sector-Ends c p uninit m fits ok =
      let m1 = record m { fpy_irq_handle_state = 1 } in
      let b = read_block 0x6 p in
      let ws = fifo_writes m.trace ++ b in
      let (t, run, seen) =
        whole_sent env fuel bound shows small enough b true m1 _ fits.bytes ok.start fits.whole in
      let (k, lt, up) = reads t p (ap (λ (v : View). v.0) seen) in
      let m2 = record m1 { trace = t } in
      let run2 =
        fpy_wait_irq_returns env fuel c k m2 (omega arith) ok.received ok.handler (omega arith)
          up in
      let t3 = idle ∷ idles k t in
      let m3 = record (handled env fuel c t3 m2) { fpy_irq_received = waiting } in
      let (r, t4, run4, end) =
        results_end env fuel bound shows small enough b ws (record uninit { error = none }) m3
          (view-idles k t ∙ seen) in
      (r, record m3 { trace = t4 }, ground (arith, run, run2, run4), (refl, ok.handler), end)

  -- On a controller that shows its phase in the status register, answers within a bound that the 1000
  -- polls of the code and the fuel reach, and raises its interrupt after a read, a read of a sector
  -- with the driver set up and no command under way returns. Either it reports no error and the
  -- driver is set up for the next command. Or it reports an error and leaves results unread: from then
  -- on `fpy_send_command`, whatever its bytes and however many calls were refused before, ends with
  -- `bad_msr_values` after one read of the status register, and sends nothing.
  pub fpy_cmd_read_sector_blocks :
      (c : CheckInterruptRes) (p : ReadSectorParams) (uninit : ReadtrackRes) (m : Machine)
      → Fits p
      → IsReady m
      → (r : ReadtrackRes) × (m' : Machine) × (fpy_cmd_read_sector env fuel c p uninit m
          ≡ some (r, m'))
        × (((r.error ≡ none) × IsReady m')
            ⊎ ((x : Error) × (r.error ≡ some x) × Refused env fuel m'))
  fpy_cmd_read_sector_blocks c p uninit m fits ok =
      let (r, m4, run, ok4, ends) = sector-Ends c p uninit m fits ok in
      (
        r,
        m4,
        run,
        elim ends [
          | inl (good, done) ↦ inl (
            good,
            record { received = ok4.0; handler = ok4.1; start = ap (λ (v : View). v.0) done },
          )
          | inr (x, bad, n, left) ↦ inr (
            x,
            bad,
            fpy_send_command-Refused env fuel bound shows small enough m4 (read_block 0x6 p) n
                (ap (λ (v : View). v.0) left),
          )
        ],
      )
