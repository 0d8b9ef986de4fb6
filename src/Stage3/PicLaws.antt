-- ===== src/Stage3/PicLaws.antt =====
-- What the functions of Stage3/Pic program into the chips.
use toy_bootloader.Common.{
  ℕ, ◌+◌, ◌-◌, ◌*◌, ◌/◌, ◌%◌, ◌^◌, ◌<◌, ◌≡◌, refl, Bool, true, none, some, [], ◌∷◌, arith, bit_and,
  bit_or, bit_and_mask, ◌==◌, if◌then◌else◌, u8, all_below, all_below_sound, Bool-cases, ==_iff,
  ltb, ◌&&◌, ◌||◌, inl, inr,
}
use toy_bootloader.Machine.{Trace, inb, outb, idle, Env, Machine, do_inb, do_outb}
use toy_bootloader.Stage3.Pic.{irq_mask, irq_unmask, init_8259, init_timer}

-- One 8259 at the ports `a` and `b`: a write to `a` with bit 4 starts the initialisation, the next
-- three to `b` are its command words 2 to 4, and every other one to `b` is the mask.
pub record Pic : Type 0 where
  pub expects : ℕ
  pub base : ℕ
  pub cascade : ℕ
  pub mode : ℕ
  pub masked : ℕ

abbrev pub pic_word : Pic → ℕ → Pic
pic_word c v =
    if c.expects == 2
    then record c { base = v; expects = 3 }
    else if c.expects == 3
    then record c { cascade = v; expects = 4 }
    else if c.expects == 4
    then record c { mode = v; expects = 0 }
    else record c { masked = v }

module _ (initial : Pic) (a b : ℕ) where
  unfoldable pub pic : Trace → Pic
  pic [] = initial
  pic (inb p v ∷ t) = pic t
  pic (outb p v ∷ t) =
      if p == a
      then (if v / 16 % 2 == 1 then record (pic t) { expects = 2 } else pic t)
      else if p == b
      then pic_word (pic t) v
      else pic t
  pic (idle ∷ t) = pic t

-- From every state of the two chips, `init_8259` puts the master's interrupts at vectors 32 to 39 and
-- the slave's at 40 to 47, the slave at line 2, and masks line 0 of each and nothing else.
pub init_8259_programs :
    (p q : Pic) (m : Machine)
    → (t : Trace) × (init_8259 m ≡ some (tt, record m { trace = t }))
      × (pic p 0x20 0x21 t ≡ record { expects = 0; base = 32; cascade = 4; mode = 1; masked = 1 })
      × (pic q 0xA0 0xA1 t ≡ record { expects = 0; base = 40; cascade = 2; mode = 1; masked = 1 })
unfolding init_8259 do_outb pic
init_8259_programs p q m = (_, refl, refl, refl)

abbrev same_byte : ℕ → ℕ → ℕ → ℕ → Bool
same_byte l v x y = ltb l 9 || (x == v && y == v)

abbrev write_back : ℕ → ℕ → Bool
write_back l v = same_byte l v (u8 (bit_or v (2 ^ l))) (u8 (bit_and v (2 ^ 32 - 1 - 2 ^ l)))

unchanged : (l v x y : ℕ) → 8 < l → same_byte l v x y ≡ true → (x ≡ v) × (y ≡ v)
unchanged l v x y h e = ground arith

-- The bytes that the two functions write back, over all lines and mask bytes that are reached.
high_line_masks :
    (l v : ℕ)
    → l < 16
    → v < 256
    → 8 < l
    → (u8 (bit_or v (2 ^ l)) ≡ v) × (u8 (bit_and v (2 ^ 32 - 1 - 2 ^ l)) ≡ v)
unfolding all_below
high_line_masks l v hl hv h =
    unchanged l v (u8 (bit_or v (2 ^ l))) (u8 (bit_and v (2 ^ 32 - 1 - 2 ^ l))) h (
      all_below_sound (write_back l) 256
        (all_below_sound (λ l. all_below (write_back l) 256) 16 refl l hl) v hv)

line_zero_masks :
    (v : ℕ)
    → v < 256
    → (u8 (bit_or v 1) ≡ v / 2 * 2 + 1) × (u8 (bit_and v (2 ^ 32 - 1 - 1)) ≡ v / 2 * 2)
unfolding all_below
line_zero_masks v h = ground (
  arith,
  all_below_sound
      (λ v. u8 (bit_or v 1) == v / 2 * 2 + 1 && u8 (bit_and v (2 ^ 32 - 1 - 1)) == v / 2 * 2) 256
      refl v h,
)

-- A read of a mask register, and the byte written back.
abbrev pub rewrites : ℕ → ℕ → ℕ → Machine → Machine
rewrites port v w m = record m { trace = outb port w ∷ inb port v ∷ m.trace }

-- For each of the 16 lines, `irq_mask` and `irq_unmask` do not do what they are named for, except at
-- line 8: at the lines 0 to 7 they end in a shift past the width of `int`, which is undefined; at the
-- lines 9 to 15 they write back the byte that they have read from the master's mask; at line 8 they
-- set and clear bit 0 of the slave's mask.
pub irq_mask_lines :
    (env : Env) (line : ℕ) (m : Machine)
    → line < 16
    → let v = u8 (env.read m.trace 0x21) in
      let w = u8 (env.read m.trace 0xA1) in
      (irq_mask env line m ≡ (
        if ltb line 8
        then none
        else if line == 8
        then some (tt, rewrites 0xA1 w (w / 2 * 2 + 1) m)
        else some (tt, rewrites 0x21 v v m)))
      × (irq_unmask env line m ≡ (
          if ltb line 8
          then none
          else if line == 8
          then some (tt, rewrites 0xA1 w (w / 2 * 2) m)
          else some (tt, rewrites 0x21 v v m)))
unfolding irq_mask irq_unmask do_inb do_outb
irq_mask_lines env line m h =
    let v = u8 (env.read m.trace 0x21) in
    let w = u8 (env.read m.trace 0xA1) in
    elim (Bool-cases (ltb line 8)) [
      | inl low ↦ (ground (arith, low), ground (arith, low))
      | inr high ↦ elim (Bool-cases (line == 8)) [
        | inl eight ↦
            let e : line ≡ 8 = (==_iff line 8).0 eight in
            rw e (
              ground (arith, line_zero_masks w (omega arith)),
              ground (arith, line_zero_masks w (omega arith)),
            )
        | inr above ↦
            let nine : 8 < line = ground arith in
            (
              ground (arith, high_line_masks line v h (omega arith) nine),
              ground (arith, high_line_masks line v h (omega arith) nine),
            )
      ]
    ]

-- Channel 0 of the 8254 after a control word 0x36, which asks for the low byte, then the high one;
-- its clock runs at 1193180 Hz.
abbrev pub pit_reload : Trace → ℕ
pit_reload (outb p hi ∷ outb q lo ∷ outb r word ∷ t) =
    if p == 0x40 && q == 0x40 && r == 0x43 && word == 0x36 then lo + hi * 256 else 0
pit_reload t = 0

-- For every positive rate, `init_timer` loads the divisor of the clock by that rate modulo 2 ^ 16.
pub init_timer_lem :
    (hz : ℕ) (m : Machine)
    → 0 < hz
    → (t : Trace) × (init_timer hz m ≡ some (tt, record m { trace = t }))
      × (pit_reload t ≡ 1193180 / hz % 2 ^ 16)
unfolding init_timer do_outb
init_timer_lem hz m h =
    (_, refl, ground (arith, bit_and_mask 8 (1193180 / hz), bit_and_mask 8 (1193180 / hz / 2 ^ 8)))
