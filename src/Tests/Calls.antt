-- ===== src/Tests/Calls.antt =====
-- Calls of the consoles over two stages, and the copies of the console at concrete values.
use toy_bootloader.Common.{◌≡◌, refl, false, some, [], ◌∷◌, arith}
use toy_bootloader.Machine.{inb, outb, Machine, do_inb, do_outb}
use toy_bootloader.Serial.Defs
use toy_bootloader.Serial.Defs.{com1}
use toy_bootloader.Serial.Protected
use toy_bootloader.Serial.Long
use toy_bootloader.Serial.Uart.{uart, crlf}
use toy_bootloader.Serial.Agree.{consoles_agree}
use toy_bootloader.Serial.Calls.{
  puts3, puts4, run, Reaches, start, next_stage, call, IsSound, fresh, rest, Reaches-IsSound,
}
use toy_bootloader.Tests.World.{env, machine}

-- After the first call, by stage 3.
abbrev printed3 : Machine
printed3 = record machine {
  is_init = 1;
  trace =
      inb 0x3FD 0x60
      ∷ outb 0x3F8 b'\n'
      ∷ outb 0x3F8 b'\r'
      ∷ outb 0x3FA 0xC7
      ∷ outb 0x3FB 0
      ∷ outb 0x3F9 0
      ∷ outb 0x3F8 3
      ∷ outb 0x3FB 0x80
      ∷ inb 0x3FB 0
      ∷ [];
}

run3 : run env (puts3 (b'\n' ∷ [])) machine ≡ some (some 1, printed3)
unfolding Defs.puts Defs.init_once Defs.setbr Defs.put_chars Defs.line_status do_inb do_outb
run3 = refl

-- After the second, by stage 4.
abbrev printed4 : Machine
printed4 = record machine {
  is_init = 1;
  trace =
      inb 0x3FD 0x60
      ∷ outb 0x3F8 b'x'
      ∷ outb 0x3FB 0
      ∷ outb 0x3F9 0
      ∷ outb 0x3F8 3
      ∷ outb 0x3FB 0x80
      ∷ inb 0x3FB 0
      ∷ printed3.trace;
}

run4 : run env (puts4 (b'x' ∷ [])) (record printed3 { is_init = 0 }) ≡ some (some 1, printed4)
unfolding Long.puts Long.set_up Long.setbr Long.put_chars Long.line_status do_inb do_outb
run4 = refl

two_calls : Reaches env machine (b'\r' ∷ b'\n' ∷ b'x' ∷ []) printed4
unfolding crlf
two_calls =
    call machine (record printed3 { is_init = 0 }) printed4 (b'\r' ∷ b'\n' ∷ []) (puts4 (b'x' ∷ []))
      (some 1)
      (next_stage machine printed3 (b'\r' ∷ b'\n' ∷ []) (
        call machine machine printed3 [] (puts3 (b'\n' ∷ [])) (some 1) (start machine) (omega arith)
          run3))
      (omega arith) run4

Reaches-IsSound_example :
    IsSound printed4
    × ((uart printed4.trace).sent ≡ b'\r' ∷ b'\n' ∷ b'x' ∷ [])
    × (rest printed4 ≡ rest machine)
unfolding uart
Reaches-IsSound_example =
    Reaches-IsSound env machine printed4 (b'\r' ∷ b'\n' ∷ b'x' ∷ []) (fresh refl) two_calls

consoles_agree_example :
    (Protected.puts env (b'o' ∷ b'k' ∷ b'\n' ∷ []) machine
      ≡ Defs.puts env false (b'o' ∷ b'k' ∷ b'\n' ∷ []) machine)
    × (Long.puts env (b'o' ∷ b'k' ∷ b'\n' ∷ []) machine
        ≡ Defs.puts env false (b'o' ∷ b'k' ∷ b'\n' ∷ []) machine)
    × (Protected.write env (b'o' ∷ b'k' ∷ b'\n' ∷ []) machine
        ≡ Defs.write env (b'o' ∷ b'k' ∷ b'\n' ∷ []) machine)
consoles_agree_example = consoles_agree env (b'o' ∷ b'k' ∷ b'\n' ∷ []) machine
