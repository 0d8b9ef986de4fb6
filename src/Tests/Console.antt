-- ===== src/Tests/Console.antt =====
-- The console, the DMA channel and the interrupt controllers at concrete values.
use toy_bootloader.Common.{
  none, ◌⊎◌, ℕ, ◌≤◌, ◌<◌, Bool, List, ◌++◌, ◌≡◌, refl, true, false, some, Option, [], ◌∷◌, inl,
  arith,
}
use toy_bootloader.Machine.{Trace, Machine, Handler, update}
use toy_bootloader.Serial.Defs.{puts, write3}
use toy_bootloader.Serial.Uart.{uart, crlf}
use toy_bootloader.Serial.Transmit.{puts-Transmits}
use toy_bootloader.Serial.Reversed.{write3_sends_nothing, IsIdle}
use toy_bootloader.Serial.Sends.{Transmits}
use toy_bootloader.Dma.Chip.{Channel, channel2}
use toy_bootloader.Stage3.Drive.{floppy_dma, floppy_dma_setup_read}
use toy_bootloader.Floppy.Controller.{phase}
use toy_bootloader.Stage3.Dma.{floppy_dma_programs}
use toy_bootloader.Stage3.Pic.{irq_mask, irq_unmask, init_8259, init_timer, timer_int, sleep}
use toy_bootloader.Stage3.Sleep.{Awake, interrupts, sleep_lem}
use toy_bootloader.Stage3.PicLaws.{
  Pic, pic, pit_reload, rewrites, init_8259_programs, irq_mask_lines, init_timer_lem,
}
use toy_bootloader.Tests.World.{env, machine}

puts-Transmits_example :
    (r : Option ℕ) × (m' : Machine) × (puts env true (b'o' ∷ b'k' ∷ b'\n' ∷ 0 ∷ []) machine
      ≡ some (r, m'))
    × Transmits (b'o' ∷ b'k' ∷ b'\r' ∷ b'\n' ∷ []) machine m'
unfolding crlf
puts-Transmits_example =
    puts-Transmits env true (b'o' ∷ b'k' ∷ b'\n' ∷ 0 ∷ []) machine (omega arith) (inl refl)

free_line : IsIdle env
free_line t = refl

write3_sends_nothing_example :
    (r : Option ℕ) × (m' : Machine) × (write3 env 1 (b'o' ∷ b'k' ∷ []) machine ≡ some (r, m'))
    × ((uart m'.trace).sent ≡ (uart machine.trace).sent)
write3_sends_nothing_example =
    write3_sends_nothing env 1 (b'o' ∷ b'k' ∷ []) machine free_line (omega arith) (inl refl)

abbrev fresh_channel : Channel
fresh_channel = record { high = true; addr = 7; count = 7; page = 7; masked = true; mode = 7 }

floppy_dma_programs_example :
    let before = channel2 fresh_channel machine.trace in
    (m1 m2 : Machine) × (floppy_dma env machine ≡ some (tt, m1))
    × (channel2 fresh_channel m1.trace
        ≡ record before { high = false; addr = 0x1000; count = 0x2FF; page = 0; masked = false })
    × (floppy_dma_setup_read env m1 ≡ some (tt, m2))
    × (channel2 fresh_channel m2.trace ≡ record {
      high = false;
      addr = 0x1000;
      count = 0x2FF;
      page = 0;
      masked = false;
      mode = 0x15;
    })
    × (phase m2.trace ≡ phase machine.trace)
floppy_dma_programs_example = floppy_dma_programs env fresh_channel machine

abbrev fresh_pic : Pic
fresh_pic = record { expects = 4; base = 9; cascade = 9; mode = 9; masked = 255 }

init_8259_programs_example :
    (t : Trace) × (init_8259 machine ≡ some (tt, record machine { trace = t }))
    × (pic fresh_pic 0x20 0x21 t
        ≡ record { expects = 0; base = 32; cascade = 4; mode = 1; masked = 1 })
    × (pic fresh_pic 0xA0 0xA1 t
        ≡ record { expects = 0; base = 40; cascade = 2; mode = 1; masked = 1 })
init_8259_programs_example = init_8259_programs fresh_pic fresh_pic machine

irq_mask_lines_example :
    (irq_mask env 8 machine ≡ some (tt, rewrites 0xA1 0 1 machine))
    × (irq_unmask env 8 machine ≡ some (tt, rewrites 0xA1 0 0 machine))
irq_mask_lines_example = irq_mask_lines env 8 machine (omega arith)

init_timer_lem_example :
    (t : Trace) × (init_timer 10 machine ≡ some (tt, record machine { trace = t }))
    × (pit_reload t ≡ 53782)
init_timer_lem_example = init_timer_lem 10 machine (omega arith)

abbrev timed_machine : Machine
timed_machine = record machine {
  idt_handlers_32 = update machine.idt_handlers_32 timer_int Handler.handle_timer_interrupt;
}

-- Two interrupts, in the first and the third round.
abbrev two_interrupts : List Bool
two_interrupts = true ∷ false ∷ true ∷ []

sleep_lem_example :
    ((interrupts two_interrupts ≤ 1) × (sleep env two_interrupts 1 timed_machine ≡ none))
    ⊎ ((1 < interrupts two_interrupts)
        × (m' : Machine) × (sleep env (two_interrupts ++ (false ∷ [])) 1 timed_machine
            ≡ some (tt, m'))
        × Awake timed_machine m')
sleep_lem_example = sleep_lem env two_interrupts false 1 timed_machine (omega arith) refl
