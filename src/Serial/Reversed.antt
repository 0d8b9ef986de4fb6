-- ===== src/Serial/Reversed.antt =====
-- `write` of stage3/write.c, which waits with the sense of its test reversed.
use toy_bootloader.Common.{
  ℕ, zero, suc, ◌<◌, ◌≡◌, refl, ap, ◌∙◌, true, none, some, Option, List, [], ◌∷◌, inl, inr, arith,
  bit_and, u8, ◌==◌, if◌then◌else◌, Bool-cases, length,
}
use toy_bootloader.Machine.{Trace, inb, Env, Machine, do_inb}
use toy_bootloader.Serial.Defs.{line_status, send_while_busy, write_chars3, write3}
use toy_bootloader.Serial.Uart.{Uart, uart}
use toy_bootloader.Serial.Sends.{Writes, Ready}
use toy_bootloader.Serial.Transmit.{init_once-Initialised}

-- The transmitter is empty whenever it is asked.
abbrev pub IsIdle : Env → Type 0
IsIdle env = (t : Trace) → bit_and (u8 (env.read t 0x3FD)) 0x20 ≡ 0x20

send_while_busy_idle :
    (env : Env) (fuel c : ℕ) (m : Machine)
    → IsIdle env
    → 0 < fuel
    → send_while_busy env fuel c m
      ≡ some (tt, record m { trace = inb 0x3FD (u8 (env.read m.trace 0x3FD)) ∷ m.trace })
unfolding send_while_busy do_inb
send_while_busy_idle env zero c m h lt = absurd (omega arith)
send_while_busy_idle env (suc fuel) c m h lt = ground (arith, h m.trace)

-- Stage 3's `write` polls with the sense of the test reversed.
write_chars3_idle :
    (env : Env) (fuel : ℕ) (s : List ℕ) (m : Machine)
    → IsIdle env
    → 0 < fuel
    → Writes (write_chars3 env fuel s) m (λ t. uart t ≡ uart m.trace)
unfolding write_chars3 uart
write_chars3_idle env fuel [] m h lt = (m.trace, refl, refl)
write_chars3_idle env fuel (c ∷ s) m h lt = elim (Bool-cases (c == b'\n')) [
  | inl newline ↦
      let m1 = record m { trace = inb 0x3FD (u8 (env.read m.trace 0x3FD)) ∷ m.trace } in
      let m2 = record m1 { trace = inb 0x3FD (u8 (env.read m1.trace 0x3FD)) ∷ m1.trace } in
      let (t, run, same) = write_chars3_idle env fuel s m2 h lt in
      (
        t,
        ground (
          arith,
          newline,
          send_while_busy_idle env fuel b'\r' m h lt,
          send_while_busy_idle env fuel c m1 h lt,
          run,
        ),
        same,
      )
  | inr other ↦
      let m1 = record m { trace = inb 0x3FD (u8 (env.read m.trace 0x3FD)) ∷ m.trace } in
      let (t, run, same) = write_chars3_idle env fuel s m1 h lt in
      (t, ground (arith, other, send_while_busy_idle env fuel c m h lt, run), same)
]

-- Stage 3's `write` on a line that is always free to send: it returns, and nothing of the buffer
-- goes over the line, whatever the buffer is.
pub write3_sends_nothing :
    (env : Env) (fuel : ℕ) (buf : List ℕ) (m : Machine)
    → IsIdle env
    → 0 < fuel
    → Ready m
    → (r : Option ℕ) × (m' : Machine) × (write3 env fuel buf m ≡ some (r, m'))
      × ((uart m'.trace).sent ≡ (uart m.trace).sent)
unfolding write3 line_status do_inb uart
write3_sends_nothing env fuel buf m idle_line lt rdy =
    let (t, n, init, f) = init_once-Initialised env true m rdy in
    let (t', run, same) =
      write_chars3_idle env fuel buf (record m { is_init = n; trace = t }) idle_line lt in
    let v = u8 (env.read t' 0x3FD) in
    (
      if bit_and v 0xE == 0 then some (length buf) else none,
      record m { is_init = n; trace = inb 0x3FD v ∷ t' },
      ground (arith, init, run),
      ap (λ (u : Uart). u.sent) same ∙ f.sent,
    )
