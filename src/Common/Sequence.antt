-- ===== src/Common/Sequence.antt =====
-- A list of functions that run one after the other, each with an effect that it may have.
use mathlib.Core.List.{List, [], ◌∷◌}

pub data Steps {F S : Type 0} (Effect : F → S → S → Type 0) : List F → S → S → Type 0 where
  done : (s : S) → Steps Effect [] s s
  step :
      (f : F) (fs : List F) (s s' s'' : S)
      → Effect f s s'
      → Steps Effect fs s' s''
      → Steps Effect (f ∷ fs) s s''
