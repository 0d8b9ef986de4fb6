-- ===== src/Stage3/IdtLaws.antt =====
-- What the processor reads out of the gates that `idt` writes.
use toy_bootloader.Common.{
  not, ◌⊎◌, all_below, all_below_sound, ==_iff, ℕ, ◌+◌, ◌*◌, ◌/◌, ◌%◌, ◌^◌, ◌<◌, ◌≡◌, refl, ◌∙◌,
  Bool, true, false, some, List, [], ◌∷◌, arith, ◌==◌, ◌&&◌, ◌||◌, leb, if◌then◌else◌, u8, inl, inr,
  Bool-cases, All,
}
use toy_bootloader.Machine.{SegRegister, IdtEvent, Env, Handler, Machine, update, set_interrupt}
use toy_bootloader.Serial.Ports.{printf-OnLine}
use toy_bootloader.Stage3.Idt.{Vector, vectors, is_interrupt, gate_of, idt_set, set_vectors, idt}

abbrev pub selector_word : SegRegister → ℕ
selector_word s = s.rpl % 2 ^ 2 + s.ti % 2 * 2 ^ 2 + s.index % 2 ^ 13 * 2 ^ 3

-- The 64 bits of a gate: the fields of the struct from the lowest bit on.
abbrev pub gate_word : IdtEvent → ℕ
gate_word e =
    e.offset0 % 2 ^ 16
    + selector_word e.seg_selector * 2 ^ 16
    + e.reserved % 2 ^ 5 * 2 ^ 32
    + e.idt_flag % 2 ^ 8 * 2 ^ 37
    + e.dpl % 2 ^ 2 * 2 ^ 45
    + e.p % 2 * 2 ^ 47
    + e.offset1 % 2 ^ 16 * 2 ^ 48

-- The manual's reading of a gate: a present 32-bit interrupt gate (type 14) or trap gate (type 15) of
-- privilege 0, with this handler and selector.
abbrev pub Enters : IdtEvent → ℕ → ℕ → ℕ → Type 0
Enters e kind handler selector =
    let w = gate_word e in
    (w % 2 ^ 16 + w / 2 ^ 48 * 2 ^ 16 ≡ handler)
    × (w / 2 ^ 16 % 2 ^ 16 ≡ selector)
    × (w / 2 ^ 32 % 2 ^ 8 ≡ 0)
    × (w / 2 ^ 40 % 2 ^ 4 ≡ kind)
    × (w / 2 ^ 44 % 2 ≡ 0)
    × (w / 2 ^ 45 % 4 ≡ 0)
    × (w / 2 ^ 47 % 2 ≡ 1)

gate_of-Enters :
    (n offset : ℕ) (s : SegRegister)
    → n < 256
    → offset < 2 ^ 32
    → Enters (gate_of n offset s) (if n == 2 || leb 32 n then 14 else 15) offset (selector_word s)
unfolding gate_of is_interrupt
gate_of-Enters n offset s small h = ground arith

abbrev has : ℕ → List Vector → Bool
has j [] = false
has j (v ∷ vs) = v.number == j || has j vs

-- The processor's exceptions 0 to 20, and the lines of the two interrupt controllers but the one that
-- links them.
abbrev pub is_vector : ℕ → Bool
is_vector j = leb j 20 || (leb 32 j && leb j 47 && not (j == 34))

agree : Bool → Bool → Bool
agree a b = if a then b else not b

eq_of_agree : (a b : Bool) → agree a b ≡ true → a ≡ b
unfolding agree
eq_of_agree true b e = cc
eq_of_agree false true e = cc
eq_of_agree false false e = refl

has-vectors : (j : ℕ) → j < 256 → has j vectors ≡ is_vector j
unfolding all_below agree
has-vectors j h =
    eq_of_agree (has j vectors) (is_vector j)
      (all_below_sound (λ j. agree (has j vectors) (is_vector j)) 256 refl j h)

abbrev Small : Vector → Type 0
Small v = v.number < 256

module _ (entries : ℕ → ℕ) (seg_cs : SegRegister) where
  set_vectors_lem :
      (vs : List Vector) (m : Machine) (j : ℕ)
      → All Small vs
      → (g : ℕ → IdtEvent) × (h : ℕ → Handler) × (set_vectors entries seg_cs vs m
          ≡ some (tt, record m { g_idt = g; idt_handlers_32 = h }))
        × (g j ≡ (if has j vs then gate_of j (entries j) seg_cs else m.g_idt j))
        × (h j ≡ (if has j vs then Handler.interrupt_panic else m.idt_handlers_32 j))
  unfolding set_vectors idt_set set_interrupt
  set_vectors_lem [] m j small = (m.g_idt, m.idt_handlers_32, refl, refl, refl)
  set_vectors_lem (v ∷ vs) m j (fits, rest) =
      let n = v.number in
      let byte : u8 n ≡ n = omega arith in
      let m1 = record m {
        g_idt = update m.g_idt (u8 n) (gate_of (u8 n) (entries n) seg_cs);
        idt_handlers_32 = update m.idt_handlers_32 (u8 n) Handler.interrupt_panic;
      } in
      let (g, h, run, gates, handlers) = set_vectors_lem vs m1 j rest in
      elim (Bool-cases (n == j)) [
        | inl here ↦
            let e : n ≡ j = (==_iff n j).0 here in
            let same : gate_of (u8 n) (entries n) seg_cs ≡ gate_of j (entries j) seg_cs =
              rw (byte, e) refl in
            (g, h, run, ground (arith, gates, same), ground (arith, handlers))
        | inr there ↦ (g, h, run, ground (arith, gates), ground (arith, handlers))
      ]

-- From every table and for every place of the 256, `idt` returns with the table loaded. At the
-- processor's exceptions 0 to 20, and at 32 to 47 but 34, the processor reads a present 32-bit gate of
-- privilege 0 to the entry of that number with the selector of `seg_cs`: an interrupt gate at 2 and from
-- 32 on, a trap gate else; and `interrupt_panic` is the handler. All other places of the two tables
-- are as before. The addresses of the entries fit 32 bits.
pub idt_gates :
    (env : Env) (entries : ℕ → ℕ) (seg_cs : SegRegister) (m : Machine) (j : ℕ)
    → j < 256
    → entries j < 2 ^ 32
    → (m' : Machine) × (idt env entries seg_cs m ≡ some (tt, m'))
      × (m'.idt_limit ≡ some 2047)
      × (((is_vector j ≡ true)
            × Enters
                (m'.g_idt j)
                (if j == 2 || leb 32 j then 14 else 15)
                (entries j)
                (selector_word seg_cs)
            × (m'.idt_handlers_32 j ≡ Handler.interrupt_panic))
          ⊎ ((is_vector j ≡ false)
              × (m'.g_idt j ≡ m.g_idt j)
              × (m'.idt_handlers_32 j ≡ m.idt_handlers_32 j)))
unfolding idt
idt_gates env entries seg_cs m j hj he =
    let (g, h, run, gates, handlers) = set_vectors_lem entries seg_cs vectors m j (omega arith) in
    let m1 = record m { g_idt = g; idt_handlers_32 = h; idt_limit = some 2047 } in
    let line = printf-OnLine env "interruptions enabled\n" [] m1 in
    let listed = has-vectors j hj in
    (
      record m1 { is_init = line.init; trace = line.trace },
      ground (arith, run, line.returns),
      refl,
      elim (Bool-cases (is_vector j)) [
        | inl known ↦
            let gate : g j ≡ gate_of j (entries j) seg_cs = gates ∙ rw (listed, known) refl in
            inl (
              known,
              rw gate (gate_of-Enters j (entries j) seg_cs hj he),
              handlers ∙ rw (listed, known) refl,
            )
        | inr other ↦
            inr (other, gates ∙ rw (listed, other) refl, handlers ∙ rw (listed, other) refl)
      ],
    )
