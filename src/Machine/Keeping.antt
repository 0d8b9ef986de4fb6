-- ===== src/Machine/Keeping.antt =====
-- What a computation leaves alone: one rule for each way to build a computation.
use toy_bootloader.Common.{
  ℕ, ◌≡◌, refl, ◌∙◌, Bool, true, false, none, some, inl, inr, u8, u16, ◌∷◌, if◌then◌else◌,
}
use toy_bootloader.Machine.State.{Error, ErrT, Env, Machine, Event, inb, outb}
use toy_bootloader.Machine.Monad.{M, pure, ◌>>=◌, ◌>>!◌, hang, do_inb, do_outb}
use toy_bootloader.Machine.Laws.{>>=-eq-some, >>!-eq-some, same_state}
use toy_bootloader.Machine.Ports.{OnPort, Adds, Adds-refl, Adds-event, Adds-trans}

-- Ports in `P` alone were touched, bytes of memory in `W` alone written, and of the globals at most the
-- two of the handshake with the interrupt handler.
pub record Frame (P : ℕ → Type 0) (W : ℕ → Bool) (m m' : Machine) : Type 0 where
  pub ports : Adds P m.trace m'.trace
  pub mem : (j : ℕ) → W j ≡ false → m'.mem j ≡ m.mem j
  pub is_init : m'.is_init ≡ m.is_init
  pub handlers : m'.idt_handlers_32 ≡ m.idt_handlers_32
  pub gates : m'.g_idt ≡ m.g_idt
  pub limit : m'.idt_limit ≡ m.idt_limit
  pub timer : m'.timer ≡ m.timer

module _ (P : ℕ → Type 0) (W : ℕ → Bool) where
  pub Frame-refl : (m : Machine) → Frame P W m m
  Frame-refl m = record {
    ports = Adds-refl P m.trace;
    mem = λ j _. refl;
    is_init = refl;
    handlers = refl;
    gates = refl;
    limit = refl;
    timer = refl;
  }

  pub Frame-event :
      (m : Machine) (e : Event) → OnPort P e → Frame P W m (record m { trace = e ∷ m.trace })
  Frame-event m e h = record {
    ports = Adds-event P e h (Adds-refl P m.trace);
    mem = λ j _. refl;
    is_init = refl;
    handlers = refl;
    gates = refl;
    limit = refl;
    timer = refl;
  }

  pub Frame-trans : {m m' m'' : Machine} → Frame P W m m' → Frame P W m' m'' → Frame P W m m''
  Frame-trans f g = record {
    ports = Adds-trans P f.ports g.ports;
    mem = λ j h. g.mem j h ∙ f.mem j h;
    is_init = g.is_init ∙ f.is_init;
    handlers = g.handlers ∙ f.handlers;
    gates = g.gates ∙ f.gates;
    limit = g.limit ∙ f.limit;
    timer = g.timer ∙ f.timer;
  }

  -- Whenever the computation returns, this holds from its start to its end.
  abbrev pub Keeps : {A : Type 0} → M A → Type 0
  Keeps {A} p = (m : Machine) (a : A) (m' : Machine) → p m ≡ some (a, m') → Frame P W m m'

  -- A computation that goes to a known state.
  pub Keeps-goes :
      {A : Type 0} (p : M A) (value : Machine → A) (next : Machine → Machine)
      → ((m : Machine) → p m ≡ some (value m, next m))
      → ((m : Machine) → Frame P W m (next m))
      → Keeps p
  Keeps-goes p value next run frame m a m' h = rw (same_state (run m) h) (frame m)

  pub Keeps-pure : {A : Type 0} (a : A) → Keeps (pure a)
  Keeps-pure a m b m' h = rw (same_state refl h) (Frame-refl m)

  pub Keeps-get : {A : Type 0} (view : Machine → A) → Keeps (λ m. some (view m, m))
  Keeps-get view m b m' h = rw (same_state refl h) (Frame-refl m)

  pub Keeps-hang : {A : Type 0} → Keeps (hang {A = A})
  Keeps-hang m a m' h = cc

  pub Keeps->>= :
      {A B : Type 0} (p : M A) (f : A → M B) → Keeps p → ((a : A) → Keeps (f a)) → Keeps (p >>= f)
  Keeps->>= p f kp kf m b m'' h =
      let (a, m', run, more) = >>=-eq-some p f m h in
      Frame-trans (kp m a m' run) (kf a m' b m'' more)

  pub Keeps->>! : (p k : M ErrT) → Keeps p → Keeps k → Keeps (p >>! k)
  Keeps->>! p k kp kk m e m'' h = elim (>>!-eq-some p k m h) [
    | inl (x, run, same) ↦ kp m (some x) m'' run
    | inr (m', run, more) ↦ Frame-trans (kp m none m' run) (kk m' e m'' more)
  ]

  pub Keeps-bool :
      {A : Type 0} (b : Bool) (p q : M A)
      → Keeps p
      → Keeps q
      → Keeps (elim b as (λ _. M A) [ true ↦ p | false ↦ q ])
  Keeps-bool true p q kp kq = kp
  Keeps-bool false p q kp kq = kq

  pub Keeps-if :
      {A : Type 0} (b : Bool) (p q : M A) → Keeps p → Keeps q → Keeps (if b then p else q)
  Keeps-if true p q kp kq = kp
  Keeps-if false p q kp kq = kq

  pub Keeps-error :
      {A : Type 0} (e : ErrT) (f : Error → M A) (q : M A)
      → ((x : Error) → Keeps (f x))
      → Keeps q
      → Keeps (elim e as (λ _. M A) [ some x ↦ f x | none ↦ q ])
  Keeps-error (some x) f q kf kq = kf x
  Keeps-error none f q kf kq = kq

  pub Keeps-outb : (port v : ℕ) → P (u16 port) → Keeps (do_outb port v)
  unfolding do_outb
  Keeps-outb port v h m a m' e = rw (same_state refl e) (Frame-event m (outb (u16 port) (u8 v)) h)

  pub Keeps-inb : (env : Env) (port : ℕ) → P (u16 port) → Keeps (do_inb env port)
  unfolding do_inb
  Keeps-inb env port h m a m' e =
      rw (same_state refl e) (Frame-event m (inb (u16 port) (u8 (env.read m.trace (u16 port)))) h)
