-- ===== src/Floppy/Reading.antt =====
-- Reading one sector from a drive in good order.
use toy_bootloader.Common.{
  zero, suc, ℕ, ◌-◌, ◌≤◌, ◌≡◌, refl, ap, ◌∙◌, true, false, none, some, List, [], ◌∷◌, arith, u8,
  All,
}
use toy_bootloader.Machine.{
  Trace, Event, inb, outb, idle, waiting, Handler, Env, Machine, OnPort, Adds, Adds-invisible,
}
use toy_bootloader.Dma.Chip.{Channel, channel, channel2, is_programmed}
use toy_bootloader.Floppy.Frames.{IsFpy, DmaWithin, fpy_send_command-Safe}
use toy_bootloader.Floppy.Safety.{fpy_cmd_read_sector-Safe}
use toy_bootloader.Floppy.Types.{CheckInterruptRes, ReadtrackRes, ReadSectorParams}
use toy_bootloader.Floppy.Status.{fpy_fifo}
use toy_bootloader.Floppy.Fifo.{fpy_read_data, fpy_send_command}
use toy_bootloader.Floppy.Block.{read_block}
use toy_bootloader.Floppy.Irq.{floppy_irq, fpy_prepare_irq_no_handle}
use toy_bootloader.Floppy.IrqLaws.{fpy_wait_irq_returns, idles, handled}
use toy_bootloader.Floppy.Commands.{fpy_cmd_gen_res, fpy_cmd_read_sector}
use toy_bootloader.Floppy.Delivered.{IsByte}
use toy_bootloader.Floppy.Observed.{puts_all, command_seen, data_seen}
use toy_bootloader.Floppy.Controller.{
  Phase, command, result, put, get, phase, phase-Observer, phase-idles, in_sector, in_buffer,
  IsDrive, HasRead,
}

-- The driver is set up and no command is under way.
pub record IsReady (m : Machine) : Type 0 where
  pub received : m.fpy_irq_received ≡ waiting
  pub handler : m.idt_handlers_32 floppy_irq ≡ Handler.fpy_interrupt_handler
  pub start : phase m.trace ≡ command []

-- The bytes of the command are bytes.
pub record Fits (p : ReadSectorParams) : Type 0 where
  pub bytes : All IsByte (read_block 0x6 p)
  pub whole : puts_all put (command []) (read_block 0x6 p) ≡ result (read_block 0x6 p) 7

-- The channel does not see the driver.
pub channel2_fpy :
    (initial : Channel) {t t' : Trace} → Adds IsFpy t t' → channel2 initial t' ≡ channel2 initial t
unfolding channel
channel2_fpy initial = Adds-invisible IsFpy (channel2 initial) same
  where
    same : (e : Event) (t : Trace) → OnPort IsFpy e → channel2 initial (e ∷ t) ≡ channel2 initial t
    same (inb p v) t h = refl
    same (outb p v) t h = ground arith
    same idle t h = refl

channel2-idles :
    (initial : Channel) (k : ℕ) (t : Trace) → channel2 initial (idles k t) ≡ channel2 initial t
unfolding channel
channel2-idles initial zero t = refl
channel2-idles initial (suc k) t = channel2-idles initial k (idle ∷ t)

pub everywhere : (env : Env) → DmaWithin env (λ j. true)
everywhere env t mem j h = ground (arith, h)

module _ (env : Env) (fuel bound : ℕ) {initial : Channel} (disk : ℕ → ℕ → ℕ → ℕ → ℕ)
    (drive : IsDrive env initial bound disk) (small : bound ≤ 1000) (enough : bound ≤ fuel) where
  -- A whole command, seen by its phases.
  pub sends :
      (cmd : List ℕ) (m : Machine)
      → All IsByte cmd
      → phase m.trace ≡ command []
      → (t : Trace) × (fpy_send_command env fuel cmd true m ≡ some (none, record m { trace = t }))
        × (phase t ≡ puts_all put (command []) cmd)
  sends cmd m bytes start =
      let (t, run, seen) =
        command_seen Phase phase put phase-Observer env bound drive.answers small fuel cmd true m
          enough bytes (drive.accepts m.trace start) (drive.listens m.trace start) in
      (t, run, seen ∙ ap (λ a. puts_all put a cmd) start)

  -- One byte of the results.
  reads :
      (m : Machine)
      → (t : Trace) × (phase t ≡ phase m.trace)
        × (let v = u8 (env.read t fpy_fifo) in
            (fpy_read_data env m ≡ some (v, record m { trace = inb fpy_fifo v ∷ t }))
            × (phase (inb fpy_fifo v ∷ t) ≡ get (phase m.trace)))
  unfolding phase
  reads m =
      let (t, same, run) =
        data_seen Phase phase put phase-Observer env bound drive.answers small m in
      (t, same, (run, ap get same))

  -- The seven results of a command that has succeeded.
  results_read :
      (b : List ℕ) (res : ReadtrackRes) (m : Machine)
      → phase m.trace ≡ result b 7
      → (r : ReadtrackRes) × (t : Trace) × (fpy_cmd_gen_res env res m
          ≡ some (r, record m { trace = t }))
        × (r.error ≡ none)
        × (phase t ≡ command [])
  unfolding fpy_cmd_gen_res
  results_read b res m p0 =
      let (t0, s0, (run0, q0)) = reads m in
      let p1 = q0 ∙ ap get p0 in
      let (t1, s1, (run1, q1)) =
        reads (record m { trace = inb fpy_fifo (u8 (env.read t0 fpy_fifo)) ∷ t0 }) in
      let p2 = q1 ∙ ap get p1 in
      let (t2, s2, (run2, q2)) =
        reads (record m { trace = inb fpy_fifo (u8 (env.read t1 fpy_fifo)) ∷ t1 }) in
      let p3 = q2 ∙ ap get p2 in
      let (t3, s3, (run3, q3)) =
        reads (record m { trace = inb fpy_fifo (u8 (env.read t2 fpy_fifo)) ∷ t2 }) in
      let p4 = q3 ∙ ap get p3 in
      let (t4, s4, (run4, q4)) =
        reads (record m { trace = inb fpy_fifo (u8 (env.read t3 fpy_fifo)) ∷ t3 }) in
      let p5 = q4 ∙ ap get p4 in
      let (t5, s5, (run5, q5)) =
        reads (record m { trace = inb fpy_fifo (u8 (env.read t4 fpy_fifo)) ∷ t4 }) in
      let p6 = q5 ∙ ap get p5 in
      let (t6, s6, (run6, q6)) =
        reads (record m { trace = inb fpy_fifo (u8 (env.read t5 fpy_fifo)) ∷ t5 }) in
      let e0 = drive.st0 t0 b (s0 ∙ p0) in
      let e1 = drive.st1 t1 b (s1 ∙ p1) in
      let e2 = drive.st2 t2 b (s2 ∙ p2) in
      (
        record res {
          error = none;
          st0 = u8 (env.read t0 fpy_fifo);
          st1 = u8 (env.read t1 fpy_fifo);
          st2 = u8 (env.read t2 fpy_fifo);
          cylinder = u8 (env.read t3 fpy_fifo);
          head = u8 (env.read t4 fpy_fifo);
          sector = u8 (env.read t5 fpy_fifo);
          sector_size = u8 (env.read t6 fpy_fifo);
        },
        inb fpy_fifo (u8 (env.read t6 fpy_fifo)) ∷ t6,
        ground (arith, run0, e0, run1, e1, run2, e2, run3, run4, run5, run6),
        refl,
        q6 ∙ ap get p6,
      )

  -- A read command, from the handshake to its results.
  pub sector_read :
      (c : CheckInterruptRes) (p : ReadSectorParams) (uninit : ReadtrackRes) (m : Machine)
      → Fits p
      → IsReady m
      → is_programmed (channel2 initial m.trace) ≡ true
      → (r : ReadtrackRes) × (m' : Machine) × (fpy_cmd_read_sector env fuel c p uninit m
          ≡ some (r, m'))
        × (r.error ≡ none)
        × IsReady m'
        × (channel2 initial m'.trace ≡ channel2 initial m.trace)
        × ((j : ℕ) → in_sector j ≡ true → m'.mem j ≡ disk p.cylinder p.head p.sector (j - 0x1000))
        × ((j : ℕ) → in_buffer j ≡ false → m'.mem j ≡ m.mem j)
  unfolding fpy_cmd_read_sector fpy_prepare_irq_no_handle phase channel
  sector_read c p uninit m fits ok programmed =
      let m1 = record m { fpy_irq_handle_state = 1 } in
      let (t, run, seen) = sends (read_block 0x6 p) m1 fits.bytes ok.start in
      let has : HasRead t p = seen ∙ fits.whole in
      let (k, lt, up) = drive.raises t p has in
      let m2 = record m1 { trace = t } in
      let run2 =
        fpy_wait_irq_returns env fuel c k m2 (omega arith) ok.received ok.handler (omega arith)
          up in
      let sent =
        fpy_send_command-Safe env (λ j. true) fuel (read_block 0x6 p) true m1 none m2 run in
      let t3 = idle ∷ idles k t in
      let set : is_programmed (channel2 initial t3) ≡ true =
        ap is_programmed (channel2-idles initial k t ∙ channel2_fpy initial sent.ports)
        ∙ programmed in
      let has3 : HasRead t3 p = phase-idles k t ∙ has in
      let m3 = record (handled env fuel c t3 m2) { fpy_irq_received = waiting } in
      let (r, t4, run4, good, done) =
        results_read (read_block 0x6 p) (record uninit { error = none }) m3 has3 in
      let m4 = record m3 { trace = t4 } in
      let ends : fpy_cmd_read_sector env fuel c p uninit m ≡ some (r, m4) =
        ground (arith, run, run2, run4) in
      let whole =
        fpy_cmd_read_sector-Safe env (λ j. true) fuel c (everywhere env) p uninit m r m4 ends in
      (
        r,
        m4,
        ends,
        good,
        record { received = refl; handler = ok.handler; start = done },
        channel2_fpy initial whole.ports,
        (λ j h. drive.transfers t3 p m.mem j has3 set h),
        (λ j h. drive.keeps t3 p m.mem j has3 set h),
      )
