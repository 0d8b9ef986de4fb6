-- ===== src/Real/Monad.antt =====
-- Computations on the real-mode machine. `none` means that a busy wait used up its fuel, or that
-- the processor has faulted.
use toy_bootloader.Common.{ℕ, Option, none, some, ◌∷◌, u8}
use toy_bootloader.Real.State.{Regs, Reply, int, cpuid, inb, outb, Bios, RealMachine}

abbrev pub R : Type 0 → Type 0
R A = RealMachine → Option (A × RealMachine)

abbrev pub pure : {A : Type 0} → A → R A
pure a m = some (a, m)

infixl 5 ◌>>=◌ ◌>>◌
abbrev pub ◌>>=◌ : {A B : Type 0} → R A → (A → R B) → R B
◌>>=◌ p f m = elim (p m) [ none ↦ none | some (a, m') ↦ f a m' ]

abbrev pub ◌>>◌ : {B : Type 0} → R (Unit {0}) → R B → R B
p >> k = p >>= λ _. k

abbrev pub stuck : {A : Type 0} → R A
stuck m = none

abbrev pub do_int : Bios → ℕ → Regs → R Reply
do_int env n regs m = let t = int n regs ∷ m.trace in some (env.bios t, record m { trace = t })

abbrev pub do_cpuid : Bios → ℕ → R Regs
do_cpuid env leaf m = let t = cpuid leaf ∷ m.trace in some (env.do_cpuid t, record m { trace = t })

abbrev pub do_outb : ℕ → ℕ → R (Unit {0})
do_outb port v m = some (tt, record m { trace = outb port v ∷ m.trace })

abbrev pub do_inb : Bios → ℕ → R ℕ
do_inb env port m =
    let v = u8 (env.port m.trace port) in some (v, record m { trace = inb port v ∷ m.trace })
