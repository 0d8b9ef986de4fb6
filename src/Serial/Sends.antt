-- ===== src/Serial/Sends.antt =====
-- Characters on their way over the line, and what the console functions have in common.
use toy_bootloader.Common.{
  ℕ, ◌<◌, ◌≡◌, ◌≢◌, refl, sym, ap, ◌∙◌, true, false, not, some, List, [], ◌∷◌, ◌++◌, ◌⊎◌, inl, inr,
  arith, bit_and, bit_or, u8, ◌==◌, if◌then◌else◌, test_bit, all_below, all_below_sound, Bool-cases,
  All, append-nil, append_assoc,
}
use toy_bootloader.Machine.{Trace, inb, outb, Machine, M, pure, ◌>>◌, do_outb}
use toy_bootloader.Serial.Defs.{com1, put_chars}
use toy_bootloader.Serial.Uart.{Uart, uart, store, crlf}

abbrev pub IsByte : ℕ → Type 0
IsByte c = c < 256

-- The line has sent `s` in addition, and the divisor registers are as they were and not in reach.
pub record Sends (s : List ℕ) (u u' : Uart) : Type 0 where
  pub sent : u'.sent ≡ u.sent ++ s
  pub dlab : u'.dlab ≡ false
  pub low : u'.divisor_low ≡ u.divisor_low
  pub high : u'.divisor_high ≡ u.divisor_high

pub Sends-nil : {u : Uart} → u.dlab ≡ false → Sends [] u u
Sends-nil e = record { sent = sym (append-nil _); dlab = e; low = refl; high = refl }

pub Sends-append : (s s' : List ℕ) {u v w : Uart} → Sends s u v → Sends s' v w → Sends (s ++ s') u w
Sends-append s s' {u} f g = record {
  sent = g.sent ∙ ap (λ t. t ++ s') f.sent ∙ append_assoc u.sent s s';
  dlab = g.dlab;
  low = g.low ∙ f.low;
  high = g.high ∙ f.high;
}

pub store-Sends :
    (u : Uart) (c : ℕ) → IsByte c → u.dlab ≡ false → Sends (c ∷ []) u (store u com1 (u8 c))
unfolding store
store-Sends u c h e = let fits : u8 c ≡ c = omega arith in ground (arith, fits)

-- A computation that only adds to the trace.
abbrev pub Writes : M (Unit {0}) → Machine → (Trace → Type 0) → Type 0
Writes p m Q = (t : Trace) × (p m ≡ some (tt, record m { trace = t })) × Q t

-- One character, with the carriage return before a newline.
abbrev pub char : ℕ → List ℕ
char c = if c == b'\n' then b'\r' ∷ c ∷ [] else c ∷ []

abbrev pub put_char : ℕ → M (Unit {0})
put_char c = do elim (c == b'\n') [ true ↦ do_outb com1 b'\r' | false ↦ pure tt ]; do_outb com1 c

pub put_char-Sends :
    (c : ℕ) (m : Machine)
    → IsByte c
    → (uart m.trace).dlab ≡ false
    → Writes (put_char c) m (λ t. Sends (char c) (uart m.trace) (uart t))
unfolding do_outb uart
put_char-Sends c m h e = elim (Bool-cases (c == b'\n')) [
  | inl newline ↦ (
    outb com1 (u8 c) ∷ outb com1 b'\r' ∷ m.trace,
    rw newline refl,
    let first = store-Sends (uart m.trace) b'\r' (omega arith) e in
        rw newline (Sends-append (b'\r' ∷ []) (c ∷ []) first (store-Sends _ c h first.dlab)),
  )
  | inr other ↦ (outb com1 (u8 c) ∷ m.trace, rw other refl, rw other (store-Sends _ c h e))
]

-- The loop of `puts` sends the text up to its terminator.
pub put_chars-Sends :
    (s : List ℕ) (m : Machine)
    → All IsByte s
    → (uart m.trace).dlab ≡ false
    → Writes (put_chars s) m (λ t. Sends (crlf s) (uart m.trace) (uart t))
unfolding put_chars crlf
put_chars-Sends [] m h e = (m.trace, refl, Sends-nil e)
put_chars-Sends (c ∷ s) m (h, hs) e = elim (Bool-cases (c == 0)) [
  | inl stop ↦ (m.trace, rw (stop, put_chars), rw stop (Sends-nil e))
  | inr go ↦
      let (t, run, one) = put_char-Sends c m h e in
      let (t', run', more) = put_chars-Sends s (record m { trace = t }) hs one.dlab in
      (
        t',
        rw (go, put_chars) (ground (arith, run, run')),
        rw go (Sends-append (char c) (crlf s) one more),
      )
]

pub lcr_masks :
    (v : ℕ)
    → v < 256
    → (test_bit (u8 (bit_or v 0x80)) 7 ≡ true) × (test_bit (u8 (bit_and v 0x47)) 7 ≡ false)
unfolding test_bit all_below
lcr_masks v h = (
  all_below_sound (λ v. test_bit (u8 (bit_or v 0x80)) 7) 256 refl v h,
  ground (arith, all_below_sound (λ v. not (test_bit (u8 (bit_and v 0x47)) 7)) 256 refl v h),
)

-- The data port is in reach, and the baud rate is 115200 / 3.
pub record Configured (u u' : Uart) : Type 0 where
  pub dlab : u'.dlab ≡ false
  pub sent : u'.sent ≡ u.sent
  pub low : u'.divisor_low ≡ 3
  pub high : u'.divisor_high ≡ 0

-- What `puts` and `write` leave of the registers: set up, if that was not done before.
abbrev pub Ready : Machine → Type 0
Ready m = (m.is_init ≡ 0) ⊎ ((uart m.trace).dlab ≡ false)

pub record Initialised (m m' : Machine) : Type 0 where
  pub dlab : (uart m'.trace).dlab ≡ false
  pub sent : (uart m'.trace).sent ≡ (uart m.trace).sent
  pub low : (uart m'.trace).divisor_low ≡ (if m.is_init == 0 then 3 else (uart m.trace).divisor_low)
  pub high :
      (uart m'.trace).divisor_high ≡ (if m.is_init == 0 then 0 else (uart m.trace).divisor_high)
  pub done : m'.is_init ≢ 0

-- What the console functions have in common: the port is set up once, the text goes over the line
-- behind what was sent before, and no other global changes.
pub record Transmits (text : List ℕ) (m m' : Machine) : Type 0 where
  pub dlab : (uart m'.trace).dlab ≡ false
  pub sent : (uart m'.trace).sent ≡ (uart m.trace).sent ++ text
  pub low : (uart m'.trace).divisor_low ≡ (if m.is_init == 0 then 3 else (uart m.trace).divisor_low)
  pub high :
      (uart m'.trace).divisor_high ≡ (if m.is_init == 0 then 0 else (uart m.trace).divisor_high)
  pub done : m'.is_init ≢ 0
  pub others : m' ≡ record m { is_init = m'.is_init; trace = m'.trace }

pub Transmits-of :
    (text : List ℕ) (m : Machine) (n : ℕ) (t t' : Trace) (v : ℕ)
    → Initialised m (record m { is_init = n; trace = t })
    → Sends text (uart t) (uart t')
    → Transmits text m (record m { is_init = n; trace = inb 0x3FD v ∷ t' })
unfolding uart
Transmits-of text m n t t' v f g = record {
  dlab = g.dlab;
  sent = g.sent ∙ ap (λ u. u ++ text) f.sent;
  low = g.low ∙ f.low;
  high = g.high ∙ f.high;
  done = f.done;
  others = refl;
}
