-- ===== src/Floppy/Delivered.antt =====
-- What a command leaves behind on its way to the controller, and how the pieces of a command compose.
use toy_bootloader.Common.{
  ℕ, ◌<◌, ◌≡◌, ◌≢◌, refl, sym, ap, ◌∙◌, none, some, List, [], ◌∷◌, ◌++◌, ◌⊎◌, inl, inr, append-nil,
  append_assoc,
}
use toy_bootloader.Machine.{Trace, Machine, Error, ErrT, msr_dataio}
use toy_bootloader.Floppy.Fifo.{}
use toy_bootloader.Floppy.Polling.{fifo_writes}

-- Only the trace differs.
pub record KeepsGlobals (m m' : Machine) : Type 0 where
  pub mem : m'.mem ≡ m.mem
  pub is_init : m'.is_init ≡ m.is_init
  pub irq_received : m'.fpy_irq_received ≡ m.fpy_irq_received
  pub handle_state : m'.fpy_irq_handle_state ≡ m.fpy_irq_handle_state
  pub handlers : m'.idt_handlers_32 ≡ m.idt_handlers_32
  pub gates : m'.g_idt ≡ m.g_idt
  pub limit : m'.idt_limit ≡ m.idt_limit
  pub timer : m'.timer ≡ m.timer

pub KeepsGlobals-trans :
    {m m' m'' : Machine} → KeepsGlobals m m' → KeepsGlobals m' m'' → KeepsGlobals m m''
KeepsGlobals-trans f g = record {
  mem = g.mem ∙ f.mem;
  is_init = g.is_init ∙ f.is_init;
  irq_received = g.irq_received ∙ f.irq_received;
  handle_state = g.handle_state ∙ f.handle_state;
  handlers = g.handlers ∙ f.handlers;
  gates = g.gates ∙ f.gates;
  limit = g.limit ∙ f.limit;
  timer = g.timer ∙ f.timer;
}

pub KeepsGlobals-trace : (m : Machine) (t : Trace) → KeepsGlobals m (record m { trace = t })
KeepsGlobals-trace m t = record {
  mem = refl;
  is_init = refl;
  irq_received = refl;
  handle_state = refl;
  handlers = refl;
  gates = refl;
  limit = refl;
  timer = refl;
}

-- Nothing was written to the data register either.
pub record IsQuiet (m m' : Machine) : Type 0 where
  pub writes : fifo_writes m'.trace ≡ fifo_writes m.trace
  pub keeps : KeepsGlobals m m'

pub record Delivered (cmd : List ℕ) (m : Machine) (e : ErrT) (m' : Machine) : Type 0 where
  pub accepted : List ℕ
  pub left : List ℕ
  pub splits : cmd ≡ accepted ++ left
  pub writes : fifo_writes m'.trace ≡ fifo_writes m.trace ++ accepted
  pub complete : e ≡ none → left ≡ []
  pub short : e ≢ none → cmd ≢ [] → left ≢ []
  pub not_dataio : e ≢ some msr_dataio
  pub keeps : KeepsGlobals m m'

abbrev pub IsByte : ℕ → Type 0
IsByte b = b < 256

pub append-ne-nil : (xs ys : List ℕ) → xs ≢ [] → xs ++ ys ≢ []
append-ne-nil [] ys h e = h refl
append-ne-nil (x ∷ xs) ys h e = cc

-- The pieces of a delivery, one after the other.
pub Delivered-quiet :
    {cmd : List ℕ} {m m' m'' : Machine} {e : ErrT}
    → IsQuiet m m'
    → Delivered cmd m' e m''
    → Delivered cmd m e m''
Delivered-quiet q d = record {
  accepted = d.accepted;
  left = d.left;
  splits = d.splits;
  writes = d.writes ∙ ap (λ t. t ++ d.accepted) q.writes;
  complete = d.complete;
  short = d.short;
  not_dataio = d.not_dataio;
  keeps = KeepsGlobals-trans q.keeps d.keeps;
}

pub Delivered-then :
    (xs ys : List ℕ) {m m' m'' : Machine} {e : ErrT}
    → Delivered xs m none m'
    → Delivered ys m' e m''
    → (ys ≢ []) ⊎ (e ≡ none)
    → Delivered (xs ++ ys) m e m''
Delivered-then xs ys f g more = record {
  accepted = xs ++ g.accepted;
  left = g.left;
  splits = ap (λ t. xs ++ t) g.splits ∙ sym (append_assoc xs g.accepted g.left);
  writes =
      let all : xs ≡ f.accepted =
        f.splits ∙ ap (λ t. f.accepted ++ t) (f.complete refl) ∙ append-nil _ in
      rw (g.writes, f.writes, append_assoc, ← all);
  complete = g.complete;
  short = λ n _. elim more [ inl h ↦ g.short n h | inr h ↦ absurd (n h) ];
  not_dataio = g.not_dataio;
  keeps = KeepsGlobals-trans f.keeps g.keeps;
}

pub Delivered-stop :
    (xs ys : List ℕ) {m m' : Machine} {x : Error}
    → xs ≢ []
    → Delivered xs m (some x) m'
    → Delivered (xs ++ ys) m (some x) m'
Delivered-stop xs ys ne d = record {
  accepted = d.accepted;
  left = d.left ++ ys;
  splits = ap (λ t. t ++ ys) d.splits ∙ append_assoc d.accepted d.left ys;
  writes = d.writes;
  complete = λ p. cc;
  short = λ n _. append-ne-nil d.left ys (d.short n ne);
  not_dataio = d.not_dataio;
  keeps = d.keeps;
}

pub Delivered-last :
    {cmd : List ℕ} {m m' m'' : Machine}
    → Delivered cmd m none m'
    → IsQuiet m' m''
    → Delivered cmd m none m''
Delivered-last d q = record {
  accepted = d.accepted;
  left = d.left;
  splits = d.splits;
  writes = q.writes ∙ d.writes;
  complete = d.complete;
  short = λ n. absurd (n refl);
  not_dataio = d.not_dataio;
  keeps = KeepsGlobals-trans d.keeps q.keeps;
}

pub Delivered-nil : {m m' : Machine} → IsQuiet m m' → Delivered [] m none m'
Delivered-nil q = record {
  accepted = [];
  left = [];
  splits = refl;
  writes = q.writes ∙ sym (append-nil _);
  complete = λ _. refl;
  short = λ n. absurd (n refl);
  not_dataio = λ p. cc;
  keeps = q.keeps;
}
