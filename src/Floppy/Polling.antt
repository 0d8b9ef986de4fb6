-- ===== src/Floppy/Polling.antt =====
-- The bounded and unbounded polls of the status register, exactly: after how many reads each one
-- ends, and what it has done by then.
use toy_bootloader.Common.{
  ℕ, zero, suc, ◌<◌, ◌≡◌, refl, Bool, true, false, none, some, List, [], ◌∷◌, ◌++◌, ◌⊎◌, inl, inr,
  arith, ◌==◌, if◌then◌else◌, test_bit, u8, Bool-cases,
}
use toy_bootloader.Machine.{Trace, inb, outb, idle, Env, Machine, timeout, do_inb, do_outb}
use toy_bootloader.Floppy.Status.{fpy_msr, fpy_fifo, fpy_read_status, msr_of_byte}
use toy_bootloader.Floppy.Fifo.{read_data_loop, send_byte_loop, wait_mrq}

-- The bytes written to the data register, in order.
abbrev pub fifo_writes : Trace → List ℕ
fifo_writes [] = []
fifo_writes (inb p v ∷ t) = fifo_writes t
fifo_writes (outb p v ∷ t) = if p == fpy_fifo then fifo_writes t ++ (v ∷ []) else fifo_writes t
fifo_writes (idle ∷ t) = fifo_writes t

module _ (env : Env) where
  -- The byte that the status register shows after `t`.
  abbrev pub status : Trace → ℕ
  status t = u8 (env.read t fpy_msr)

  abbrev pub ready : Trace → Bool
  ready t = test_bit (status t) 7

  -- `n` reads of the status register.
  unfoldable pub polled : ℕ → Trace → Trace
  polled zero t = t
  polled (suc n) t = polled n (inb fpy_msr (status t) ∷ t)

  -- The controller refuses `n` polls in a row.
  abbrev pub Refuses : ℕ → Trace → Type 0
  Refuses n t = (j : ℕ) → j < n → ready (polled j t) ≡ false

  -- It refuses `k` polls and then is ready.
  abbrev pub ReadyAfter : ℕ → Trace → Type 0
  ReadyAfter k t = Refuses k t × (ready (polled k t) ≡ true)

  pub fifo_writes-polled : (n : ℕ) (t : Trace) → fifo_writes (polled n t) ≡ fifo_writes t
  unfolding polled
  fifo_writes-polled zero t = refl
  fifo_writes-polled (suc n) t = fifo_writes-polled n (inb fpy_msr (status t) ∷ t)

  Refuses-suc :
      (n : ℕ) (t : Trace)
      → ready t ≡ false
      → Refuses n (inb fpy_msr (status t) ∷ t)
      → Refuses (suc n) t
  unfolding polled
  Refuses-suc n t e h zero lt = e
  Refuses-suc n t e h (suc j) lt = h j (omega arith)

  abbrev poll : Machine → Machine
  poll m = record m { trace = inb fpy_msr (status m.trace) ∷ m.trace }

  -- Whether the controller becomes ready within `n` polls.
  pub first_ready : (n : ℕ) (t : Trace) → ((k : ℕ) × (k < n) × ReadyAfter k t) ⊎ Refuses n t
  unfolding polled
  first_ready zero t = inr (λ j lt. absurd (omega arith))
  first_ready (suc n) t = elim (Bool-cases (ready t)) [
    | inl yes' ↦ inl (0, omega arith, ((λ j lt. absurd (omega arith)), yes'))
    | inr no' ↦ elim (first_ready n (inb fpy_msr (status t) ∷ t)) [
      | inl (k, lt, r) ↦ inl (suc k, omega arith, (Refuses-suc k t no' r.0, r.1))
      | inr r ↦ inr (Refuses-suc n t no' r)
    ]
  ]

  ReadyAfter-tail :
      (k : ℕ) (t : Trace)
      → ReadyAfter (suc k) t
      → (ready t ≡ false) × ReadyAfter k (inb fpy_msr (status t) ∷ t)
  unfolding polled
  ReadyAfter-tail k t h = (h.0 0 (omega arith), ((λ j lt. h.0 (suc j) (omega arith)), h.1))

  Refuses-tail :
      (k : ℕ) (t : Trace)
      → Refuses (suc k) t
      → (ready t ≡ false) × Refuses k (inb fpy_msr (status t) ∷ t)
  unfolding polled
  Refuses-tail k t h = (h 0 (omega arith), (λ j lt. h (suc j) (omega arith)))

  -- The poll that finds the controller ready.
  abbrev pub seen : ℕ → Trace → Trace
  seen k t = inb fpy_msr (status (polled k t)) ∷ polled k t

  pub send_byte_loop_ready :
      (cmd n k : ℕ) (m : Machine)
      → k < n
      → ReadyAfter k m.trace
      → send_byte_loop env n cmd m
        ≡ some (none, record m { trace = outb fpy_fifo (u8 cmd) ∷ seen k m.trace })
  unfolding send_byte_loop fpy_read_status msr_of_byte do_inb do_outb polled
  send_byte_loop_ready cmd zero k m lt h = absurd (omega arith)
  send_byte_loop_ready cmd (suc n) zero m lt h = ground (arith, h.1)
  send_byte_loop_ready cmd (suc n) (suc k) m lt h =
      let (e, rest) = ReadyAfter-tail k m.trace h in
      ground (arith, e, send_byte_loop_ready cmd n k (poll m) (omega arith) rest)

  pub send_byte_loop_refused :
      (cmd n : ℕ) (m : Machine)
      → Refuses n m.trace
      → send_byte_loop env n cmd m ≡ some (some timeout, record m { trace = polled n m.trace })
  unfolding send_byte_loop fpy_read_status msr_of_byte do_inb polled
  send_byte_loop_refused cmd zero m h = refl
  send_byte_loop_refused cmd (suc n) m h =
      let (e, rest) = Refuses-tail n m.trace h in
      ground (arith, e, send_byte_loop_refused cmd n (poll m) rest)

  pub read_data_loop_ready :
      (n k : ℕ) (m : Machine)
      → k < n
      → ReadyAfter k m.trace
      → let v = u8 (env.read (seen k m.trace) fpy_fifo) in
        read_data_loop env n m ≡ some (v, record m { trace = inb fpy_fifo v ∷ seen k m.trace })
  unfolding read_data_loop fpy_read_status msr_of_byte do_inb polled
  read_data_loop_ready zero k m lt h = absurd (omega arith)
  read_data_loop_ready (suc n) zero m lt h = ground (arith, h.1)
  read_data_loop_ready (suc n) (suc k) m lt h =
      let (e, rest) = ReadyAfter-tail k m.trace h in
      ground (arith, e, read_data_loop_ready n k (poll m) (omega arith) rest)

  pub read_data_loop_refused :
      (n : ℕ) (m : Machine)
      → Refuses n m.trace
      → read_data_loop env n m ≡ some (0xFF, record m { trace = polled n m.trace })
  unfolding read_data_loop fpy_read_status msr_of_byte do_inb polled
  read_data_loop_refused zero m h = refl
  read_data_loop_refused (suc n) m h =
      let (e, rest) = Refuses-tail n m.trace h in
      ground (arith, e, read_data_loop_refused n (poll m) rest)

  pub wait_mrq_ready :
      (n k : ℕ) (m : Machine)
      → k < n
      → ReadyAfter k m.trace
      → wait_mrq env n m ≡ some (tt, record m { trace = seen k m.trace })
  unfolding wait_mrq fpy_read_status msr_of_byte do_inb polled
  wait_mrq_ready zero k m lt h = absurd (omega arith)
  wait_mrq_ready (suc n) zero m lt h = ground (arith, h.1)
  wait_mrq_ready (suc n) (suc k) m lt h =
      let (e, rest) = ReadyAfter-tail k m.trace h in
      ground (arith, e, wait_mrq_ready n k (poll m) (omega arith) rest)

  pub wait_mrq_refused : (n : ℕ) (m : Machine) → Refuses n m.trace → wait_mrq env n m ≡ none
  unfolding wait_mrq fpy_read_status msr_of_byte do_inb polled
  wait_mrq_refused zero m h = refl
  wait_mrq_refused (suc n) m h =
      let (e, rest) = Refuses-tail n m.trace h in
      ground (arith, e, wait_mrq_refused n (poll m) rest)

-- The controller becomes ready within every `bound` polls.
abbrev pub Answers : Env → ℕ → Type 0
Answers env bound = (t : Trace) → (k : ℕ) × (k < bound) × ReadyAfter env k t
