-- ===== src/Serial/Transmit.antt =====
-- What the console functions send over the line.
use toy_bootloader.Common.{
  ℕ, ◌≡◌, refl, Bool, true, false, none, some, Option, List, [], ◌∷◌, ◌++◌, inl, inr, arith,
  bit_and, bit_or, u8, ◌==◌, if◌then◌else◌, test_bit, Bool-cases, All, length,
}
use toy_bootloader.Machine.{Trace, inb, Env, Machine, do_inb, do_outb}
use toy_bootloader.Serial.Defs.{setbr, init_once, line_status, puts, write_chars, write}
use toy_bootloader.Serial.Uart.{uart, store, crlf}
use toy_bootloader.Serial.Sends.{
  IsByte, Sends, Sends-nil, Sends-append, Writes, char, put_char-Sends, put_chars-Sends, lcr_masks,
  Configured, Ready, Initialised, Transmits, Transmits-of,
}

module _ (env : Env) (fifo : Bool) where
  pub setbr-Configured :
      (m : Machine) → Writes (setbr env fifo) m (λ t. Configured (uart m.trace) (uart t))
  unfolding setbr do_inb do_outb uart store
  setbr-Configured m = let v = u8 (env.read m.trace 0x3FB) in split fifo (lcr_masks v (omega arith))
    where
      split :
          (fifo : Bool)
          → let v = u8 (env.read m.trace 0x3FB) in
            (test_bit (u8 (bit_or v 0x80)) 7 ≡ true) × (test_bit (u8 (bit_and v 0x47)) 7 ≡ false)
            → Writes (setbr env fifo) m (λ t. Configured (uart m.trace) (uart t))
      split true masks = (_, refl, ground (arith, masks.0, masks.1))
      split false masks = (_, refl, ground (arith, masks.0, masks.1))

  pub init_once-Initialised :
      (m : Machine)
      → Ready m
      → (t : Trace) × (n : ℕ) × (init_once env fifo m
          ≡ some (tt, record m { is_init = n; trace = t }))
        × Initialised m (record m { is_init = n; trace = t })
  unfolding init_once
  init_once-Initialised m h = elim (Bool-cases (m.is_init == 0)) [
    | inl fresh ↦
        let (t, run, c) = setbr-Configured (record m { is_init = 1 }) in
        (t, 1, ground (arith, fresh, run), ground (arith, fresh, c))
    | inr old ↦ (m.trace, m.is_init, ground (arith, old), ground (arith, old, h))
  ]

  -- For every text and every state in which the port is fresh or its divisor out of reach, `puts`
  -- returns, and sends the text up to its terminator with a carriage return before each newline; the
  -- first call, and no later one, sets the divisor to 3, which is 38400 baud.
  pub puts-Transmits :
      (s : List ℕ) (m : Machine)
      → All IsByte s
      → Ready m
      → (r : Option ℕ) × (m' : Machine) × (puts env fifo s m ≡ some (r, m'))
        × Transmits (crlf s) m m'
  unfolding puts line_status do_inb
  puts-Transmits s m h rdy =
      let (t, n, init, f) = init_once-Initialised m rdy in
      let (t', run, g) = put_chars-Sends s (record m { is_init = n; trace = t }) h f.dlab in
      let v = u8 (env.read t' 0x3FD) in
      (
        if bit_and v 0xE == 0 then some (1) else none,
        record m { is_init = n; trace = inb 0x3FD v ∷ t' },
        ground (arith, init, run),
        Transmits-of (crlf s) m n t t' v f g,
      )

-- `write` of stage 4 and loader_protected, byte by byte with no terminator.
unfoldable pub crlf_all : List ℕ → List ℕ
crlf_all [] = []
crlf_all (c ∷ s) = (if c == b'\n' then b'\r' ∷ c ∷ [] else c ∷ []) ++ crlf_all s

write_chars-Sends :
    (s : List ℕ) (m : Machine)
    → All IsByte s
    → (uart m.trace).dlab ≡ false
    → Writes (write_chars s) m (λ t. Sends (crlf_all s) (uart m.trace) (uart t))
unfolding write_chars crlf_all
write_chars-Sends [] m h e = (m.trace, refl, Sends-nil e)
write_chars-Sends (c ∷ s) m (h, hs) e =
    let (t, run, one) = put_char-Sends c m h e in
    let (t', run', more) = write_chars-Sends s (record m { trace = t }) hs one.dlab in
    (t', ground (arith, run, run'), Sends-append (char c) (crlf_all s) one more)

-- `write` of stage 4 and loader_protected returns for every buffer, sends all of its bytes, those
-- behind a 0 too, with a carriage return before each newline, and sets the port up as `puts` does.
pub write-Transmits :
    (env : Env) (buf : List ℕ) (m : Machine)
    → All IsByte buf
    → Ready m
    → (r : Option ℕ) × (m' : Machine) × (write env buf m ≡ some (r, m'))
      × Transmits (crlf_all buf) m m'
unfolding write line_status do_inb
write-Transmits env buf m h rdy =
    let (t, n, init, f) = init_once-Initialised env false m rdy in
    let (t', run, g) = write_chars-Sends buf (record m { is_init = n; trace = t }) h f.dlab in
    let v = u8 (env.read t' 0x3FD) in
    (
      if bit_and v 0xE == 0 then some (length buf) else none,
      record m { is_init = n; trace = inb 0x3FD v ∷ t' },
      ground (arith, init, run),
      Transmits-of (crlf_all buf) m n t t' v f g,
    )
