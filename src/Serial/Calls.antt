-- ===== src/Serial/Calls.antt =====
-- Sequences of calls of the consoles, but not of stage 3's `write`, over the stages: each stage but the last has its own
-- `is_init`, which is 0 when the stage begins, and they share the port.
use toy_bootloader.Common.{
  ℕ, ◌≡◌, refl, sym, ap, ◌∙◌, true, false, some, Option, List, [], ◌++◌, inl, inr, arith,
  append-nil, append_assoc, All,
}
use toy_bootloader.Machine.{Env, Machine, M, same_state}
use toy_bootloader.Serial.Defs.{puts, write}
use toy_bootloader.Serial.Uart.{uart, crlf}
use toy_bootloader.Serial.Protected
use toy_bootloader.Serial.Long
use toy_bootloader.Serial.Agree.{consoles_agree}
use toy_bootloader.Serial.Sends.{IsByte, Ready, Transmits}
use toy_bootloader.Serial.Transmit.{puts-Transmits, write-Transmits, crlf_all}

-- The functions that the stages print with, in the order of the stages; `-1` is `none`. Stage 3's
-- `write` is not among them: its polling is reversed (Serial/Reversed).
pub data Call : Type 0 where
  puts3 puts_protected write_protected puts4 write4 : List ℕ → Call

abbrev pub run : Env → Call → M (Option ℕ)
run env (puts3 s) = puts env true s
run env (puts_protected s) = Protected.puts env s
run env (write_protected s) = Protected.write env s
run env (puts4 s) = Long.puts env s
run env (write4 s) = write env s

abbrev pub bytes : Call → List ℕ
bytes (puts3 s) = s
bytes (puts_protected s) = s
bytes (write_protected s) = s
bytes (puts4 s) = s
bytes (write4 s) = s

-- What the call is to send.
abbrev pub line_text : Call → List ℕ
line_text (puts3 s) = crlf s
line_text (puts_protected s) = crlf s
line_text (write_protected s) = crlf_all s
line_text (puts4 s) = crlf s
line_text (write4 s) = crlf_all s

-- From `m`, calls and changes of the stage lead to `m'`, and the calls are to send `text`.
pub data Reaches (env : Env) : Machine → List ℕ → Machine → Type 0 where
  start : (m : Machine) → Reaches env m [] m
  next_stage :
      (m m' : Machine) (text : List ℕ)
      → Reaches env m text m'
      → Reaches env m text (record m' { is_init = 0 })
  call :
      (m m' m'' : Machine) (text : List ℕ) (c : Call) (r : Option ℕ)
      → Reaches env m text m'
      → All IsByte (bytes c)
      → run env c m' ≡ some (r, m'')
      → Reaches env m (text ++ line_text c) m''

-- The port is not set up, or else its data register is in reach and the divisor is 3, for 38400 baud.
pub data IsSound (m : Machine) : Type 0 where
  fresh : m.is_init ≡ 0 → IsSound m
  set_up :
      (uart m.trace).dlab ≡ false
      → (uart m.trace).divisor_low ≡ 3
      → (uart m.trace).divisor_high ≡ 0
      → IsSound m

-- All but the accesses so far and `is_init`.
abbrev pub rest : Machine → Machine
rest m = record m { trace = []; is_init = 0 }

IsSound-Ready : (m : Machine) → IsSound m → Ready m
IsSound-Ready m (fresh e) = inl e
IsSound-Ready m (set_up e _ _) = inr e

Transmits-IsSound : (text : List ℕ) (m m' : Machine) → IsSound m → Transmits text m m' → IsSound m'
Transmits-IsSound text m m' (fresh e) t =
    set_up t.dlab (ground (arith, t.low, e)) (ground (arith, t.high, e))
Transmits-IsSound text m m' (set_up e low high) t =
    set_up t.dlab (ground (arith, t.low, low)) (ground (arith, t.high, high))

run-Transmits :
    (env : Env) (c : Call) (m : Machine)
    → All IsByte (bytes c)
    → Ready m
    → (r : Option ℕ) × (m' : Machine) × (run env c m ≡ some (r, m')) × Transmits (line_text c) m m'
run-Transmits env (puts3 s) m h rdy = puts-Transmits env true s m h rdy
run-Transmits env (puts_protected s) m h rdy =
    let (r, m', go, t) = puts-Transmits env false s m h rdy in
    (r, m', (consoles_agree env s m).0 ∙ go, t)
run-Transmits env (write_protected s) m h rdy =
    let (r, m', go, t) = write-Transmits env s m h rdy in
    let (_, _, same) = consoles_agree env s m in (r, m', same ∙ go, t)
run-Transmits env (puts4 s) m h rdy =
    let (r, m', go, t) = puts-Transmits env false s m h rdy in
    let (_, same, _) = consoles_agree env s m in (r, m', same ∙ go, t)
run-Transmits env (write4 s) m h rdy = write-Transmits env s m h rdy

-- Over every sequence of calls of `puts` of stage 3, of `puts` and `write` of loader_protected and of
-- stage 4, and of changes of the stage, but not of `write` of stage 3: the port stays fresh or set up
-- with divisor 3, the bytes written to its data register are those of the texts, up to the terminator in
-- `puts`, with a carriage return before each newline and none missing, repeated or reordered, and no other global variable changes.
-- It begins in a state in which the port is fresh or set up so. Whether the queue of the port is full
-- is not considered.
pub Reaches-IsSound :
    (env : Env) (m m' : Machine) (text : List ℕ)
    → IsSound m
    → Reaches env m text m'
    → IsSound m' × ((uart m'.trace).sent ≡ (uart m.trace).sent ++ text) × (rest m' ≡ rest m)
Reaches-IsSound env m m' text ok (start _) = (ok, sym (append-nil _), refl)
Reaches-IsSound env m m' text ok (next_stage _ m1 _ path) =
    let (ok1, sent, same) = Reaches-IsSound env m m1 text ok path in (fresh refl, sent, same)
Reaches-IsSound env m m' text ok (call _ m1 _ text1 c r path small go) =
    let (ok1, sent, same) = Reaches-IsSound env m m1 text1 ok path in
    let (r', m2, go', t) = run-Transmits env c m1 small (IsSound-Ready m1 ok1) in
    let e : m' ≡ m2 = same_state go' go in
    rw e (
      Transmits-IsSound (line_text c) m1 m2 ok1 t,
      t.sent ∙ ap (λ u. u ++ line_text c) sent ∙ append_assoc _ text1 (line_text c),
      ap rest t.others ∙ same,
    )
