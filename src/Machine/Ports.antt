-- ===== src/Machine/Ports.antt =====
-- Which ports a computation touches.
use toy_bootloader.Common.{
  ℕ, ◌≡◌, refl, ap, ◌∙◌, sym, List, [], ◌∷◌, ◌++◌, append_assoc, All, All-append,
}
use toy_bootloader.Machine.State.{Trace, Event, inb, outb, idle}

-- The event concerns a port in `P`, or none.
abbrev pub OnPort : (ℕ → Type 0) → Event → Type 0
OnPort P (inb p v) = P p
OnPort P (outb p v) = P p
OnPort P idle = Unit {0}

-- The trace `t'` continues `t` by accesses to ports in `P`.
pub record Adds (P : ℕ → Type 0) (t t' : Trace) : Type 0 where
  pub events : List Event
  pub splits : t' ≡ events ++ t
  pub only : All (OnPort P) events

module _ (P : ℕ → Type 0) where
  pub Adds-refl : (t : Trace) → Adds P t t
  Adds-refl t = record { events = []; splits = refl; only = tt }

  pub Adds-event : {t t' : Trace} (e : Event) → OnPort P e → Adds P t t' → Adds P t (e ∷ t')
  Adds-event e h a = record {
    events = e ∷ a.events;
    splits = ap (λ u. e ∷ u) a.splits;
    only = (h, a.only);
  }

  pub Adds-trans : {t t' t'' : Trace} → Adds P t t' → Adds P t' t'' → Adds P t t''
  Adds-trans {t} a b = record {
    events = b.events ++ a.events;
    splits = b.splits ∙ ap (λ u. b.events ++ u) a.splits ∙ sym (append_assoc b.events a.events t);
    only = All-append (OnPort P) b.events a.events b.only a.only;
  }

  -- A view of the trace that no access to `P` changes.
  pub Adds-invisible {ℓ} :
      {A : Type ℓ} (view : Trace → A)
      → ((e : Event) (t : Trace) → OnPort P e → view (e ∷ t) ≡ view t)
      → {t t' : Trace} → Adds P t t'
      → view t' ≡ view t
  Adds-invisible view same {t} a = ap view a.splits ∙ skip a.events a.only
    where
      skip : (es : List Event) → All (OnPort P) es → view (es ++ t) ≡ view t
      skip [] h = refl
      skip (e ∷ es) (h, hs) = same e (es ++ t) h ∙ skip es hs
