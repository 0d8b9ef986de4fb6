-- ===== src/Machine/Laws.antt =====
-- Inversion of a computation that returns.
use toy_bootloader.Common.{Option, none, some, ◌≡◌, refl, sym, ◌∙◌, ◌⊎◌, inl, inr}
use toy_bootloader.Machine.State.{Error, ErrT, Machine}
use toy_bootloader.Machine.Monad.{M, pure, ◌>>=◌, ◌>>!◌}

pub >>=-eq-some :
    {A B : Type 0} (p : M A) (f : A → M B) (m : Machine) {b : B} {m'' : Machine}
    → (p >>= f) m ≡ some (b, m'')
    → (a : A) × (m' : Machine) × (p m ≡ some (a, m')) × (f a m' ≡ some (b, m''))
>>=-eq-some {A} {B} p f m {b} {m''} = split (p m) refl
  where
    split :
        (o : Option (A × Machine))
        → p m ≡ o
        → (elim o [ none ↦ none | some (a, m') ↦ f a m' ]) ≡ some (b, m'')
        → (a : A) × (m' : Machine) × (p m ≡ some (a, m')) × (f a m' ≡ some (b, m''))
    split none e h = cc
    split (some (a, m')) e h = (a, m', e, h)

-- `p >>! k` returns an error of `p` at once, and goes on with `k` only after success.
pub >>!-eq-some :
    (p k : M ErrT) (m : Machine) {e : ErrT} {m'' : Machine}
    → (p >>! k) m ≡ some (e, m'')
    → ((x : Error) × (p m ≡ some (some x, m'')) × (e ≡ some x))
      ⊎ ((m' : Machine) × (p m ≡ some (none, m')) × (k m' ≡ some (e, m'')))
>>!-eq-some p k m {e} {m''} h =
    let (a, m', run, rest) =
      >>=-eq-some p (λ e. elim e [ some x ↦ pure (some x) | none ↦ k ]) m h in
    split a m' run rest
  where
    split :
        (a : ErrT) (m' : Machine)
        → p m ≡ some (a, m')
        → (elim a as (λ _. M ErrT) [ some x ↦ pure (some x) | none ↦ k ]) m' ≡ some (e, m'')
        → ((x : Error) × (p m ≡ some (some x, m'')) × (e ≡ some x))
          ⊎ ((m' : Machine) × (p m ≡ some (none, m')) × (k m' ≡ some (e, m'')))
    split none m' run rest = inr (m', run, rest)
    split (some x) m' run rest = inl (x, cc, cc)

-- A computation has one outcome.
pub same_state :
    {A : Type 0} {o : Option (A × Machine)} {a b : A} {m m' : Machine}
    → o ≡ some (a, m)
    → o ≡ some (b, m')
    → m' ≡ m
same_state p q = cc (sym p ∙ q)

pub same_value :
    {A : Type 0} {o : Option (A × Machine)} {a b : A} {m m' : Machine}
    → o ≡ some (a, m)
    → o ≡ some (b, m')
    → b ≡ a
same_value p q = cc (sym p ∙ q)
