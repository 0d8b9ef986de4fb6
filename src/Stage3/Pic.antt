-- ===== src/Stage3/Pic.antt =====
-- The interrupt controllers and the timer chip: `irq_mask`, `irq_unmask` and `init_8259` of
-- stage3/idt.c, and stage3/timer.c.
use toy_bootloader.Common.{
  List, ◌∷◌, Bool, ℕ, ◌+◌, ◌-◌, ◌/◌, ◌^◌, true, false, some, [], bit_and, bit_or, ltb, ◌==◌,
  if◌then◌else◌, u8, u32,
}
use toy_bootloader.Machine.{
  Env, Handler, M, pure, ◌>>=◌, ◌>>◌, hang, undefined, do_inb, do_outb, set_interrupt,
}
use toy_bootloader.Serial.Defs.{printf}

-- The port and the shifted line; `line -= 8` is in 8 bits.
abbrev pub pic_port : ℕ → ℕ
pic_port line = if ltb 8 line then 0x21 else 0xA1

abbrev pub pic_line : ℕ → ℕ
pic_line line = if ltb 8 line then line else u8 (line + 248)

-- `1 << line` with `line` past the width of `int` is undefined behaviour.
unfoldable pub irq_mask : Env → ℕ → M (Unit {0})
irq_mask env line = do
  curr ← do_inb env (pic_port line)
  elim (ltb (pic_line line) 32) [
    | true ↦ do_outb (pic_port line) (bit_or curr (2 ^ pic_line line))
    | false ↦ undefined
  ]

unfoldable pub irq_unmask : Env → ℕ → M (Unit {0})
irq_unmask env line = do
  curr ← do_inb env (pic_port line)
  elim (ltb (pic_line line) 32) [
    | true ↦ do_outb (pic_port line) (bit_and curr (2 ^ 32 - 1 - 2 ^ pic_line line))
    | false ↦ undefined
  ]

-- `sti` has no effect on the state that is modelled.
unfoldable pub init_8259 : M (Unit {0})
init_8259 = do
  do_outb 0x20 0x11
  do_outb 0xA0 0x11
  do_outb 0x21 0x20
  do_outb 0xA1 0x28
  do_outb 0x21 0x04
  do_outb 0xA1 0x02
  do_outb 0x21 0x01
  do_outb 0xA1 0x01
  do_outb 0x21 0x01
  do_outb 0xA1 0x01

abbrev pub timer_int : ℕ
timer_int = 32

unfoldable pub handle_timer_interrupt : Env → M (Unit {0})
handle_timer_interrupt env = do
  printf env "poc\n" []
  λ m. some (tt, record m { timer = if m.timer == 0 then 0 else m.timer - 1 })

-- `hz` is positive; the quotient of two positive `int`s.
unfoldable pub init_timer : ℕ → M (Unit {0})
init_timer hz = do
  do_outb 0x43 0x36
  do_outb 0x40 (bit_and (1193180 / hz) 0xFF)
  do_outb 0x40 (bit_and (1193180 / hz / 2 ^ 8) 0xFF)

-- The entry of the interrupt table at the timer's line runs. No end of interrupt is sent: neither the
-- entry nor the handler has one. No other function is modelled here.
unfoldable pub take_timer : Env → M (Unit {0})
unfolding handle_timer_interrupt
take_timer env = do
  handler ← λ m. some (m.idt_handlers_32 timer_int, m)
  elim handler [ Handler.handle_timer_interrupt ↦ handle_timer_interrupt env | _ ↦ hang ]

-- `while (timer) {}`, whose body is empty. The list has the rounds to come, each with whether an interrupt
-- of the timer comes through in it, past the mask and the interrupt in service; where it ends, the loop
-- is still under way.
unfoldable pub sleep_loop : Env → List Bool → M (Unit {0})
unfolding take_timer
sleep_loop env [] = hang
sleep_loop env (pending ∷ rounds) = do
  timer ← λ m. some (m.timer, m)
  elim (timer == 0) [
    | true ↦ pure tt
    | false ↦ do elim pending [ true ↦ take_timer env | false ↦ pure tt ]; sleep_loop env rounds
  ]

unfoldable pub sleep : Env → List Bool → ℕ → M (Unit {0})
unfolding sleep_loop
sleep env rounds i = do λ m. some (tt, record m { timer = u32 (i + 1) }); sleep_loop env rounds

unfoldable pub sleep_exit : M (Unit {0})
sleep_exit m = some (tt, record m { timer = 0 })

unfoldable pub setup_timer : Env → M (Unit {0})
unfolding init_timer irq_unmask
setup_timer env = do
  set_interrupt timer_int Handler.handle_timer_interrupt
  init_timer 10
  irq_unmask env 0
