-- ===== src/Stage3/Dma.antt =====
-- What `floppy_dma` and `floppy_dma_setup_read` leave in the registers of DMA channel 2.
use toy_bootloader.Common.{ℕ, ap, ◌≡◌, refl, ◌∙◌, false, some, [], ◌∷◌, arith}
use toy_bootloader.Machine.{
  Trace, Event, inb, outb, idle, Env, Machine, do_outb, M, OnPort, Adds, Adds-invisible,
}
use toy_bootloader.Serial.Ports.{IsCom, printf-OnLine}
use toy_bootloader.Dma.Defs.{
  dma_mask_channel, dma_unmask_channel, dma_reset_flipflop, dma_setup_address, dma_setup_count,
  dma_setup_page, dma_set_mode,
}
use toy_bootloader.Dma.Chip.{Channel, channel, channel2}
use toy_bootloader.Floppy.Controller.{phase}
use toy_bootloader.Stage3.Drive.{floppy_dma, floppy_dma_setup_read}

pub channel2_com :
    (initial : Channel) {t t' : Trace} → Adds IsCom t t' → channel2 initial t' ≡ channel2 initial t
unfolding channel
channel2_com initial = Adds-invisible IsCom (channel2 initial) same
  where
    same : (e : Event) (t : Trace) → OnPort IsCom e → channel2 initial (e ∷ t) ≡ channel2 initial t
    same (inb p v) t h = refl
    same (outb p v) t h = ground arith
    same idle t h = refl

-- The controller does not see the console either.
pub phase_com : {t t' : Trace} → Adds IsCom t t' → phase t' ≡ phase t
unfolding phase
phase_com = Adds-invisible IsCom phase same
  where
    same : (e : Event) (t : Trace) → OnPort IsCom e → phase (e ∷ t) ≡ phase t
    same (inb p v) t h = ground (arith, h)
    same (outb p v) t h = ground (arith, h)
    same idle t h = refl

-- The function returns and changes nothing but the trace and the console's variable: the channel is
-- then `after`, and the controller's phase is as before.
pub record Sets (p : M (Unit {0})) (initial : Channel) (after : Channel → Channel) (m : Machine)
    : Type 0 where
  pub init : ℕ
  pub trace : Trace
  pub returns : p m ≡ some (tt, record m { is_init = init; trace = trace })
  pub channel : channel2 initial trace ≡ after (channel2 initial m.trace)
  pub phase : phase trace ≡ phase m.trace

abbrev pub addressed : Channel → Channel
addressed c = record c { high = false; addr = 0x1000; count = 0x2FF; page = 0; masked = false }

abbrev pub reading : Channel → Channel
reading c = record c { masked = false; mode = 0x15 }

pub floppy_dma-Sets :
    (env : Env) (initial : Channel) (m : Machine) → Sets (floppy_dma env) initial addressed m
unfolding floppy_dma do_outb channel phase dma_mask_channel dma_unmask_channel dma_reset_flipflop
    dma_setup_address dma_setup_count dma_setup_page
floppy_dma-Sets env initial m =
    let t =
      outb 0x0A 2
      ∷ outb 0x81 0
      ∷ outb 0x05 2
      ∷ outb 0x05 0xFF
      ∷ outb 0x0C 0xFF
      ∷ outb 0x04 0x10
      ∷ outb 0x04 0
      ∷ outb 0x0C 0xFF
      ∷ outb 0x0A 6
      ∷ m.trace in
    let line =
      printf-OnLine env "| floppy : dma setup for floppy disk ok\n" [] (record m { trace = t }) in
    record {
      init = line.init;
      trace = line.trace;
      returns = line.returns;
      channel = channel2_com initial line.adds ∙ ground arith;
      phase = phase_com line.adds;
    }

pub floppy_dma_setup_read-Sets :
    (env : Env) (initial : Channel) (m : Machine)
    → Sets (floppy_dma_setup_read env) initial reading m
unfolding floppy_dma_setup_read do_outb channel phase dma_mask_channel dma_unmask_channel
    dma_set_mode
floppy_dma_setup_read-Sets env initial m =
    let t = outb 0x0A 2 ∷ outb 0x0B 0x56 ∷ outb 0x0A 6 ∷ m.trace in
    let line = printf-OnLine env "| floppy : dma setup for read ok\n" [] (record m { trace = t }) in
    record {
      init = line.init;
      trace = line.trace;
      returns = line.returns;
      channel = channel2_com initial line.adds ∙ ground arith;
      phase = phase_com line.adds;
    }

-- From every state of the chip and of the machine `floppy_dma` returns, and channel 2 then transfers
-- 0x300 bytes from physical address 0x1000, page 0, and is not masked; its mode is what it was.
-- `floppy_dma_setup_read`, run next, returns, and the channel is then unmasked in the mode "single
-- transfer, upwards, automatic reload, from the device to memory" of the chip's manual, with address,
-- count and page as they were. Neither call is seen by the floppy controller.
pub floppy_dma_programs :
    (env : Env) (initial : Channel) (m : Machine)
    → let before = channel2 initial m.trace in
      (m1 m2 : Machine) × (floppy_dma env m ≡ some (tt, m1))
      × (channel2 initial m1.trace
          ≡ record before { high = false; addr = 0x1000; count = 0x2FF; page = 0; masked = false })
      × (floppy_dma_setup_read env m1 ≡ some (tt, m2))
      × (channel2 initial m2.trace ≡ record {
        high = false;
        addr = 0x1000;
        count = 0x2FF;
        page = 0;
        masked = false;
        mode = 0x15;
      })
      × (phase m2.trace ≡ phase m.trace)
floppy_dma_programs env initial m =
    let d = floppy_dma-Sets env initial m in
    let m1 = record m { is_init = d.init; trace = d.trace } in
    let e = floppy_dma_setup_read-Sets env initial m1 in
    (
      m1,
      record m1 { is_init = e.init; trace = e.trace },
      d.returns,
      d.channel,
      e.returns,
      e.channel ∙ ap reading d.channel,
      e.phase ∙ d.phase,
    )
