-- ===== src/Floppy/Sensing.antt =====
-- The interrupts that the handler senses by itself, on a controller that starts as the manual has it.
use toy_bootloader.Common.{
  ℕ, zero, suc, ◌+◌, ◌<◌, ◌≤◌, ◌≡◌, refl, ap, ◌∙◌, Bool, true, none, some, List, [], ◌∷◌, ◌++◌,
  arith, u8, All, append_assoc,
}
use toy_bootloader.Machine.{
  Trace, inb, outb, idle, waiting, received, Handler, Env, Machine, do_outb,
}
use toy_bootloader.Dma.Chip.{Channel}
use toy_bootloader.Floppy.Types.{CheckInterruptRes}
use toy_bootloader.Floppy.Status.{fpy_fifo, fpy_check_st0}
use toy_bootloader.Floppy.Fifo.{fpy_read_data, fpy_send_command}
use toy_bootloader.Floppy.Irq.{
  floppy_irq, fpy_cmd_check_interrupt, fpy_interrupt_handler, take_irq, wait_received, fpy_wait_irq,
}
use toy_bootloader.Floppy.IrqLaws.{RaisesAfter, RaisesAfter-tail, idles}
use toy_bootloader.Floppy.Polling.{fifo_writes}
use toy_bootloader.Floppy.Delivered.{IsByte}
use toy_bootloader.Floppy.Observed.{Observer, puts_all, command_seen, data_seen}
use toy_bootloader.Floppy.Sending.{puts_all-append}
use toy_bootloader.Floppy.Controller.{Phase, command, result, put, get, phase, IsDrive}

-- What the controller is in, and the bytes that it was sent.
abbrev pub View : Type 0
View = Phase × List ℕ

abbrev pub view : Trace → View
view t = (phase t, fifo_writes t)

abbrev pub put_view : View → ℕ → View
put_view (f, ws) v = (put f v, ws ++ (v ∷ []))

pub view-Observer : Observer View view put_view
unfolding phase
view-Observer = record { poll = λ v t. refl; fifo_write = λ v t. refl }

pub puts_all-view :
    (f : Phase) (ws cmd : List ℕ) → puts_all put_view (f, ws) cmd ≡ (puts_all put f cmd, ws ++ cmd)
puts_all-view f ws [] = ap (λ u. (f, u)) (puts_all-append ws [])
puts_all-view f ws (c ∷ cs) =
    puts_all-view (put f c) (ws ++ (c ∷ [])) cs
    ∙ ap (λ u. (puts_all put (put f c) cs, u)) (append_assoc ws (c ∷ []) cs)

-- A controller that has the version of the driver, raises an interrupt after a calibration, and reports
-- no error when it is sensed.
pub record Starts (env : Env) (bound : ℕ) : Type 0 where
  pub version : (t : Trace) → phase t ≡ result (0x10 ∷ []) 1 → u8 (env.read t fpy_fifo) ≡ 0x90
  pub raises :
      (t : Trace) (ws : List ℕ) (v : ℕ)
      → phase t ≡ command []
      → fifo_writes t ≡ ws ++ (0x7 ∷ v ∷ [])
      → (k : ℕ) × (k + 1 < bound) × RaisesAfter env k t
  pub senses :
      (t : Trace) → phase t ≡ result (0x8 ∷ []) 2 → fpy_check_st0 (u8 (env.read t fpy_fifo)) ≡ none

-- The driver is set up, no command is under way, and the bytes `ws` have been sent.
pub record At (m : Machine) (ws : List ℕ) : Type 0 where
  pub received : m.fpy_irq_received ≡ waiting
  pub state : m.fpy_irq_handle_state ≡ 0
  pub handler : m.idt_handlers_32 floppy_irq ≡ Handler.fpy_interrupt_handler
  pub seen : view m.trace ≡ (command [], ws)

fifo_writes-idles : (k : ℕ) (t : Trace) → fifo_writes (idles k t) ≡ fifo_writes t
fifo_writes-idles zero t = refl
fifo_writes-idles (suc k) t = fifo_writes-idles k (idle ∷ t)

module _ (env : Env) (fuel bound : ℕ) {initial : Channel} (disk : ℕ → ℕ → ℕ → ℕ → ℕ)
    (drive : IsDrive env initial bound disk) (starts : Starts env bound) (small : bound ≤ 1000)
    (enough : bound ≤ fuel) where
  -- A command without results.
  pub command_sent :
      (cmd : List ℕ) (mrq : Bool) (m : Machine) (ws : List ℕ) (f : Phase)
      → All IsByte cmd
      → puts_all put (command []) cmd ≡ f
      → view m.trace ≡ (command [], ws)
      → (t : Trace) × (fpy_send_command env fuel cmd mrq m ≡ some (none, record m { trace = t }))
        × (view t ≡ (f, ws ++ cmd))
  command_sent cmd mrq m ws f fits ends start =
      let idle_now = ap (λ (v : View). v.0) start in
      let (t, run, seen) =
        command_seen View view put_view view-Observer env bound drive.answers small fuel cmd mrq m
          enough fits (drive.accepts m.trace idle_now) (drive.listens m.trace idle_now) in
      (
        t,
        run,
        seen
            ∙ ap (λ a. puts_all put_view a cmd) start
            ∙ puts_all-view (command []) ws cmd
            ∙ ap (λ (f : Phase). (f, ws ++ cmd)) ends,
      )

  -- A result byte.
  pub result_read :
      (m : Machine) (f : Phase) (ws : List ℕ)
      → view m.trace ≡ (f, ws)
      → (t : Trace) × (phase t ≡ f)
        × (let v = u8 (env.read t fpy_fifo) in
            (fpy_read_data env m ≡ some (v, record m { trace = inb fpy_fifo v ∷ t }))
            × (view (inb fpy_fifo v ∷ t) ≡ (get f, ws)))
  unfolding phase
  result_read m f ws start =
      let (t, same, run) =
        data_seen View view put_view view-Observer env bound drive.answers small m in
      let seen = same ∙ start in
      (t, ap (λ (v : View). v.0) seen, (run, ap (λ (v : View). (get v.0, v.1)) seen))

  sensed :
      (u : CheckInterruptRes) (m : Machine) (ws : List ℕ)
      → view m.trace ≡ (command [], ws)
      → (r : CheckInterruptRes) × (t : Trace) × (fpy_cmd_check_interrupt env fuel u m
          ≡ some (r, record m { trace = t }))
        × (r.error ≡ none)
        × (view t ≡ (command [], ws ++ (0x8 ∷ [])))
  unfolding fpy_cmd_check_interrupt
  sensed u m ws start =
      let (t, run, seen) =
        command_sent (0x8 ∷ []) true m ws (result (0x8 ∷ []) 2) (omega arith) refl start in
      let (t0, p0, (run0, q0)) = result_read (record m { trace = t }) _ _ seen in
      let v0 = u8 (env.read t0 fpy_fifo) in
      let (t1, p1, (run1, q1)) = result_read (record m { trace = inb fpy_fifo v0 ∷ t0 }) _ _ q0 in
      let v1 = u8 (env.read t1 fpy_fifo) in
      let good = starts.senses t0 p0 in
      (
        record u { error = none; st0 = v0; current_cylinder = v1 },
        inb fpy_fifo v1 ∷ t1,
        ground (arith, run, run0, good, run1),
        refl,
        q1,
      )

  -- After the interrupt was taken.
  abbrev Taken : List ℕ → Machine → Type 0
  Taken ws m =
      (m.fpy_irq_received ≡ received)
      × (m.fpy_irq_handle_state ≡ 0)
      × (m.idt_handlers_32 floppy_irq ≡ Handler.fpy_interrupt_handler)
      × (view m.trace ≡ (command [], ws ++ (0x8 ∷ [])))

  taken :
      (u : CheckInterruptRes) (t : Trace) (m : Machine) (ws : List ℕ)
      → m.idt_handlers_32 floppy_irq ≡ Handler.fpy_interrupt_handler
      → m.fpy_irq_handle_state ≡ 0
      → view t ≡ (command [], ws)
      → (m' : Machine) × (take_irq env fuel u (record m { trace = t }) ≡ some (tt, m'))
        × Taken ws m'
  unfolding take_irq fpy_interrupt_handler do_outb phase
  taken u t m ws h z start =
      let m1 = record m { trace = t; mem = env.dma t m.mem } in
      let (r, t', run, good, seen) = sensed u m1 ws start in
      (
        record m1 { trace = outb 0x20 0x20 ∷ t'; fpy_irq_received = received },
        ground (arith, h, z, run, good),
        (refl, z, h, seen),
      )

  waits :
      (u : CheckInterruptRes) (n k : ℕ) (t : Trace) (m : Machine) (ws : List ℕ)
      → k + 1 < n
      → m.fpy_irq_received ≡ waiting
      → m.idt_handlers_32 floppy_irq ≡ Handler.fpy_interrupt_handler
      → m.fpy_irq_handle_state ≡ 0
      → view t ≡ (command [], ws)
      → RaisesAfter env k t
      → (m' : Machine) × (wait_received env fuel u n (record m { trace = t }) ≡ some (received, m'))
        × Taken ws m'
  unfolding wait_received phase
  waits u zero k t m ws lt w h z start up = absurd (omega arith)
  waits u (suc zero) k t m ws lt w h z start up = absurd (omega arith)
  waits u (suc (suc n)) zero t m ws lt w h z start up =
      let (m', run, (e, z', h', seen)) = taken u (idle ∷ t) m ws h z start in
      (m', ground (arith, w, up.1, run, e), (e, z', h', seen))
  waits u (suc (suc n)) (suc k) t m ws lt w h z start up =
      let (e, later) = RaisesAfter-tail env k t up in
      let (m', run, done) = waits u (suc n) k (idle ∷ t) m ws (omega arith) w h z start later in
      (m', ground (arith, w, e, run), done)

  -- The wait after a calibration of the head.
  pub calibrated :
      (u : CheckInterruptRes) (m : Machine) (ws : List ℕ) (v : ℕ)
      → At m (ws ++ (0x7 ∷ v ∷ []))
      → (m' : Machine) × (fpy_wait_irq env fuel u m ≡ some (none, m'))
        × At m' ((ws ++ (0x7 ∷ v ∷ [])) ++ (0x8 ∷ []))
  unfolding fpy_wait_irq
  calibrated u m ws v at =
      let (k, lt, up) =
        starts.raises m.trace ws v (ap (λ (v : View). v.0) at.seen)
          (ap (λ (v : View). v.1) at.seen) in
      let (m', run, (e, z, h, seen)) =
        waits u fuel k m.trace m (ws ++ (0x7 ∷ v ∷ [])) (omega arith) at.received at.handler
          at.state at.seen up in
      (
        record m' { fpy_irq_received = waiting },
        ground (arith, run),
        record { received = refl; state = z; handler = h; seen = seen },
      )
