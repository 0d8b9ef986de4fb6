-- ===== src/Serial/Agree.antt =====
-- The consoles of the stages against each other, and `strnlen` against a search.
use toy_bootloader.Common.{
  ℕ, zero, suc, ◌+◌, ◌≡◌, refl, ap, true, false, List, [], ◌∷◌, arith, bit_and, ◌==◌, if◌then◌else◌,
  Bool-cases, inl, inr, length, u8, u16,
}
use toy_bootloader.Machine.{Env, Machine, M, pure, ◌>>◌, do_inb, do_outb}
use toy_bootloader.Serial.Defs
use toy_bootloader.Serial.Defs.{com1}
use Prim.Native.Nat.{min}
use mathlib.Core.Path.{fun_ext}
use toy_bootloader.Serial.Protected
use toy_bootloader.Serial.Long
use toy_bootloader.Stage2.Memory

abbrev put_then : ℕ → M (Unit {0}) → M (Unit {0})
put_then c k = do
  elim (c == b'\n') [ true ↦ do_outb com1 b'\r' | false ↦ pure tt ]
  do_outb com1 c
  k

abbrev put_until : ℕ → M (Unit {0}) → M (Unit {0})
put_until c k = elim (c == 0) [ true ↦ pure tt | false ↦ put_then c k ]

put_chars_same :
    (s : List ℕ)
    → (Protected.put_chars s ≡ Defs.put_chars s) × (Long.put_chars s ≡ Defs.put_chars s)
unfolding Protected.put_chars Defs.put_chars Long.put_chars
put_chars_same [] = (refl, refl)
put_chars_same (c ∷ s) = let (p, q) = put_chars_same s in (ap (put_until c) p, ap (put_until c) q)

write_chars_same : (s : List ℕ) → Protected.write_chars s ≡ Defs.write_chars s
unfolding Protected.write_chars Defs.write_chars
write_chars_same [] = refl
write_chars_same (c ∷ s) = ap (put_then c) (write_chars_same s)

set_up_same :
    (env : Env) (m : Machine)
    → (Protected.set_up env m ≡ Defs.init_once env false m)
      × (Long.set_up env m ≡ Defs.init_once env false m)
unfolding Protected.set_up Long.set_up Defs.init_once Defs.setbr do_inb do_outb
set_up_same env m = elim (Bool-cases (m.is_init == 0)) [
  | inl fresh ↦ (ground (arith, fresh), ground (arith, fresh))
  | inr old ↦ (ground (arith, old), ground (arith, old))
]

line_status_same :
    (env : Env) (n : ℕ) (m : Machine)
    → (Protected.line_status env n m ≡ Defs.line_status env n m)
      × (Long.line_status env n m ≡ Defs.line_status env n m)
unfolding Protected.line_status Long.line_status Defs.line_status do_inb
line_status_same env n m =
    elim (Bool-cases (bit_and (u8 (env.read m.trace (u16 (com1 + 5)))) 0xE == 0)) [
      | inl good ↦ (ground (arith, good), ground (arith, good))
      | inr bad ↦ (ground (arith, bad), ground (arith, bad))
    ]

-- The consoles of loader_protected and of stage 4 do what the model's `puts` without the FIFO line
-- does, and `write` of the first what `write` of the second does, for every text, in every state and
-- with every answer of the port.
pub consoles_agree :
    (env : Env) (s : List ℕ) (m : Machine)
    → (Protected.puts env s m ≡ Defs.puts env false s m)
      × (Long.puts env s m ≡ Defs.puts env false s m)
      × (Protected.write env s m ≡ Defs.write env s m)
unfolding Protected.puts Long.puts Defs.puts Protected.write Defs.write
consoles_agree env s m =
    let setup = fun_ext (λ m. (set_up_same env m).0) in
    let setup' = fun_ext (λ m. (set_up_same env m).1) in
    let (chars, chars') = put_chars_same s in
    let status = fun_ext (λ m. (line_status_same env 1 m).0) in
    let status' = fun_ext (λ m. (line_status_same env 1 m).1) in
    let status_n = fun_ext (λ m. (line_status_same env (length s) m).0) in
    (
      λ i. (setup i >> (chars i >> status i)) m,
      λ i. (setup' i >> (chars' i >> status' i)) m,
      λ i. (setup i >> (write_chars_same s i >> status_n i)) m,
    )

-- The bytes before the first 0, if there is one in reach.
abbrev pub before_zero : List ℕ → ℕ
before_zero [] = 0
before_zero (c ∷ s) = if c == 0 then 0 else suc (before_zero s)

-- What the loops of the stages have in common.
IsSearch : (ℕ → List ℕ → ℕ → ℕ) → Type 0
IsSearch loop = (n : ℕ) (s : List ℕ) (i : ℕ) → loop n s i ≡ i + min n (before_zero s)

protected-IsSearch : IsSearch Protected.strnlen_loop
unfolding IsSearch Protected.strnlen_loop
protected-IsSearch zero s i = omega arith
protected-IsSearch (suc n) [] i = omega arith
protected-IsSearch (suc n) (c ∷ s) i = ground (arith, protected-IsSearch n s (i + 1))

long-IsSearch : IsSearch Long.strnlen_loop
unfolding IsSearch Long.strnlen_loop
long-IsSearch zero s i = omega arith
long-IsSearch (suc n) [] i = omega arith
long-IsSearch (suc n) (c ∷ s) i = ground (arith, long-IsSearch n s (i + 1))

memory-IsSearch : IsSearch Memory.strnlen_loop
unfolding IsSearch Memory.strnlen_loop
memory-IsSearch zero s i = omega arith
memory-IsSearch (suc n) [] i = omega arith
memory-IsSearch (suc n) (c ∷ s) i = ground (arith, memory-IsSearch n s (i + 1))

strnlen64-IsSearch : IsSearch Defs.strnlen64_loop
unfolding IsSearch Defs.strnlen64_loop
strnlen64-IsSearch zero s i = omega arith
strnlen64-IsSearch (suc n) [] i = omega arith
strnlen64-IsSearch (suc n) (c ∷ s) i = ground (arith, strnlen64-IsSearch n s (i + 1))

defs_strnlen_lem : (n : ℕ) (s : List ℕ) → Defs.strnlen s n ≡ min n (before_zero s)
unfolding Defs.strnlen
defs_strnlen_lem zero s = omega arith
defs_strnlen_lem (suc n) [] = omega arith
defs_strnlen_lem (suc n) (c ∷ s) = ground (arith, defs_strnlen_lem n s)

-- The copies of `strnlen` in stage 2, stage 3, loader_protected, stage 4 and stage 5 all count the bytes
-- before the first 0, up to the limit, for every string and limit.
pub strnlen_copies :
    (s : List ℕ) (maxlen : ℕ)
    → let n = min maxlen (before_zero s) in
      (Memory.strnlen s maxlen ≡ n)
      × (Defs.strnlen s maxlen ≡ n)
      × (Protected.strnlen s maxlen ≡ n)
      × (Long.strnlen s maxlen ≡ n)
      × (Defs.strnlen64 s maxlen ≡ n)
unfolding IsSearch Protected.strnlen Long.strnlen Memory.strnlen Defs.strnlen64
strnlen_copies s maxlen = (
  omega (arith, memory-IsSearch maxlen s 0),
  defs_strnlen_lem maxlen s,
  omega (arith, protected-IsSearch maxlen s 0),
  omega (arith, long-IsSearch maxlen s 0),
  omega (arith, strnlen64-IsSearch maxlen s 0),
)
