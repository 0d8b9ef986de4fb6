-- ===== src/Machine/Monad.antt =====
-- Computations on the machine. `none` means that a busy wait used up its fuel, or that the code
-- has run into an endless loop or into undefined behaviour.
use toy_bootloader.Common.{ℕ, Option, none, some, ◌∷◌, u8, u16}
use toy_bootloader.Machine.State.{inb, outb, ErrT, Env, Machine, Handler, update}

abbrev pub M : Type 0 → Type 0
M A = Machine → Option (A × Machine)

abbrev pub pure : {A : Type 0} → A → M A
pure a m = some (a, m)

infixl 5 ◌>>=◌ ◌>>◌
abbrev pub ◌>>=◌ : {A B : Type 0} → M A → (A → M B) → M B
◌>>=◌ p f m = elim (p m) [ none ↦ none | some (a, m') ↦ f a m' ]

abbrev pub ◌>>◌ : {B : Type 0} → M (Unit {0}) → M B → M B
p >> k = p >>= λ _. k

-- `if ((err = p)) return err;` followed by `k`.
infixl 5 ◌>>!◌
abbrev pub ◌>>!◌ : M ErrT → M ErrT → M ErrT
p >>! k = p >>= λ e. elim e [ some x ↦ pure (some x) | none ↦ k ]

-- A loop with no exit.
abbrev pub hang : {A : Type 0} → M A
hang m = none

unfoldable pub do_outb : ℕ → ℕ → M (Unit {0})
do_outb port val m = some (tt, record m { trace = outb (u16 port) (u8 val) ∷ m.trace })

unfoldable pub do_inb : Env → ℕ → M ℕ
do_inb env port m =
    let v = u8 (env.read m.trace (u16 port)) in
    some (v, record m { trace = inb (u16 port) v ∷ m.trace })

-- `idt_handlers_32[n] = f`
unfoldable pub set_interrupt : ℕ → Handler → M (Unit {0})
set_interrupt n f m = some (tt, record m { idt_handlers_32 = update m.idt_handlers_32 (u8 n) f })

-- A read outside an array.
abbrev pub undefined : {A : Type 0} → M A
undefined m = none
