-- ===== src/Floppy/Observed.antt =====
-- Sending and reading as an observer of the data register sees them. An observer is a function of
-- the trace that a read of the status register leaves alone.
use toy_bootloader.Common.{
  ℕ, zero, suc, ◌≤◌, ◌≡◌, refl, ap, ◌∙◌, Bool, true, false, none, some, List, [], ◌∷◌, arith, u8,
  test_bit, All,
}
use toy_bootloader.Machine.{Trace, inb, outb, Env, Machine, do_inb}
use toy_bootloader.Floppy.Status.{FpyMsr, fpy_msr, fpy_fifo, fpy_read_status, msr_of_byte}
use toy_bootloader.Floppy.Fifo.{
  fpy_read_data, fpy_send_command_byte, wait_mrq, send_bytes, fpy_send_command,
}
use toy_bootloader.Floppy.Polling.{
  Answers, status, polled, seen, send_byte_loop_ready, read_data_loop_ready, wait_mrq_ready,
}
use toy_bootloader.Floppy.Delivered.{IsByte}

-- What the observer sees of a write, and that it does not see the polls.
pub record Observer (A : Type 0) (obs : Trace → A) (put : A → ℕ → A) : Type 0 where
  pub poll : (v : ℕ) (t : Trace) → obs (inb fpy_msr v ∷ t) ≡ obs t
  pub fifo_write : (v : ℕ) (t : Trace) → obs (outb fpy_fifo v ∷ t) ≡ put (obs t) v

-- A sequence of writes.
abbrev pub puts_all : {A : Type 0} → (A → ℕ → A) → A → List ℕ → A
puts_all put a [] = a
puts_all put a (c ∷ cs) = puts_all put (put a c) cs

module _ (A : Type 0) (obs : Trace → A) (put : A → ℕ → A) (o : Observer A obs put) (env : Env)
    (bound : ℕ) (answers : Answers env bound) (small : bound ≤ 1000) where
  pub obs-polled : (n : ℕ) (t : Trace) → obs (polled env n t) ≡ obs t
  unfolding polled
  obs-polled zero t = refl
  obs-polled (suc n) t = obs-polled n (inb fpy_msr (status env t) ∷ t) ∙ o.poll (status env t) t

  obs-seen : (n : ℕ) (t : Trace) → obs (seen env n t) ≡ obs t
  obs-seen n t = o.poll _ _ ∙ obs-polled n t

  pub byte_seen :
      (c : ℕ) (m : Machine)
      → IsByte c
      → (t : Trace) × (fpy_send_command_byte env c m ≡ some (none, record m { trace = t }))
        × (obs t ≡ put (obs m.trace) c)
  unfolding fpy_send_command_byte
  byte_seen c m fits =
      let (k, lt, r) = answers m.trace in
      let same : u8 c ≡ c = omega arith in
      (
        _,
        send_byte_loop_ready env c 1000 k m (omega arith) r,
        rw same (o.fifo_write c (seen env k m.trace) ∙ ap (λ a. put a c) (obs-seen k m.trace)),
      )

  wait_seen :
      (fuel : ℕ) (m : Machine)
      → bound ≤ fuel
      → (t : Trace) × (wait_mrq env fuel m ≡ some (tt, record m { trace = t }))
        × (obs t ≡ obs m.trace)
  wait_seen fuel m le =
      let (k, lt, r) = answers m.trace in
      (_, wait_mrq_ready env fuel k m (omega arith) r, obs-seen k m.trace)

  bytes_seen :
      (fuel : ℕ) (s : FpyMsr) (cs : List ℕ) (m : Machine)
      → s.dataio ≡ false
      → bound ≤ fuel
      → All IsByte cs
      → (t : Trace) × (send_bytes env fuel s cs m ≡ some (none, record m { trace = t }))
        × (obs t ≡ puts_all put (obs m.trace) cs)
  unfolding send_bytes
  bytes_seen fuel s [] m out le fits = (m.trace, refl, refl)
  bytes_seen fuel s (c ∷ cs) m out le (fits, rest) =
      let (t1, run1, w1) = wait_seen fuel m le in
      let (t2, run2, w2) = byte_seen c (record m { trace = t1 }) fits in
      let (t3, run3, w3) = bytes_seen fuel s cs (record m { trace = t2 }) out le rest in
      (
        t3,
        ground (arith, run1, out, run2, run3),
        w3 ∙ ap (λ a. puts_all put a cs) (w2 ∙ ap (λ a. put a c) w1),
      )

  -- A whole command.
  pub command_seen :
      (fuel : ℕ) (cmd : List ℕ) (mrq : Bool) (m : Machine)
      → bound ≤ fuel
      → All IsByte cmd
      → test_bit (status env m.trace) 7 ≡ true
      → test_bit (status env m.trace) 6 ≡ false
      → (t : Trace) × (fpy_send_command env fuel cmd mrq m ≡ some (none, record m { trace = t }))
        × (obs t ≡ puts_all put (obs m.trace) cmd)
  unfolding fpy_send_command fpy_read_status msr_of_byte do_inb
  command_seen fuel cmd mrq m le fits mrq_set out = finish mrq
    where
      v : ℕ
      v = status env m.trace

      m1 : Machine
      m1 = record m { trace = inb fpy_msr v ∷ m.trace }

      sent :
          (t : Trace) × (send_bytes env fuel (msr_of_byte v) cmd m1
            ≡ some (none, record m1 { trace = t }))
          × (obs t ≡ puts_all put (obs m.trace) cmd)
      sent =
          let (t, run, w) = bytes_seen fuel (msr_of_byte v) cmd m1 out le fits in
          (t, run, w ∙ ap (λ a. puts_all put a cmd) (o.poll v m.trace))

      finish :
          (mrq : Bool)
          → (t : Trace) × (fpy_send_command env fuel cmd mrq m
              ≡ some (none, record m { trace = t }))
            × (obs t ≡ puts_all put (obs m.trace) cmd)
      finish true =
          let (t2, run2, w2) = sent in
          let (t3, run3, w3) = wait_seen fuel (record m1 { trace = t2 }) le in
          (t3, ground (arith, mrq_set, out, run2, run3), w3 ∙ w2)
      finish false = let (t2, run2, w2) = sent in (t2, ground (arith, mrq_set, out, run2), w2)

  -- One byte of a result.
  pub data_seen :
      (m : Machine)
      → (t : Trace) × (obs t ≡ obs m.trace)
        × (let v = u8 (env.read t fpy_fifo) in
            fpy_read_data env m ≡ some (v, record m { trace = inb fpy_fifo v ∷ t }))
  unfolding fpy_read_data
  data_seen m =
      let (k, lt, r) = answers m.trace in
      (_, obs-seen k m.trace, read_data_loop_ready env 1000 k m (omega arith) r)
