-- ===== src/Floppy/Delivery.antt =====
-- What sending a command leaves behind: the bytes that the controller has taken, in order, and
-- everything else as it was.
use toy_bootloader.Common.{
  ℕ, ◌≡◌, ◌≢◌, refl, sym, ◌∙◌, Bool, true, false, not, ◌||◌, none, some, List, [], ◌∷◌, ◌⊎◌, inl,
  inr, arith, u8, Bool-cases, append-nil, All,
}
use toy_bootloader.Machine.{
  Env, Machine, ErrT, bad_msr_values, M, pure, ◌>>!◌, ◌>>◌, do_inb, >>=-eq-some, >>!-eq-some,
  same_state, same_value,
}
use toy_bootloader.Floppy.Status.{FpyMsr, fpy_read_status}
use toy_bootloader.Floppy.Fifo.{
  fpy_read_data, fpy_send_command_byte, wait_mrq, send_bytes, fpy_send_command,
}
use toy_bootloader.Floppy.Polling.{
  polled, seen, first_ready, fifo_writes-polled, send_byte_loop_ready, send_byte_loop_refused,
  read_data_loop_ready, read_data_loop_refused, wait_mrq_ready, wait_mrq_refused,
}
use toy_bootloader.Floppy.Delivered.{
  KeepsGlobals-trace, IsQuiet, Delivered, IsByte, Delivered-quiet, Delivered-then, Delivered-stop,
  Delivered-last, Delivered-nil,
}

module _ (env : Env) where
  IsQuiet-polls : (m : Machine) (n : ℕ) → IsQuiet m (record m { trace = polled env n m.trace })
  IsQuiet-polls m n = record {
    writes = fifo_writes-polled env n m.trace;
    keeps = KeepsGlobals-trace m _;
  }

  IsQuiet-seen : (m : Machine) (n : ℕ) → IsQuiet m (record m { trace = seen env n m.trace })
  IsQuiet-seen m n = record {
    writes = fifo_writes-polled env n m.trace;
    keeps = KeepsGlobals-trace m _;
  }

  pub fpy_read_status-IsQuiet :
      (m : Machine) {s : FpyMsr} {m' : Machine}
      → fpy_read_status env m ≡ some (s, m')
      → IsQuiet m m'
  unfolding fpy_read_status do_inb
  fpy_read_status-IsQuiet m h =
      rw (same_state refl h) (record { writes = refl; keeps = KeepsGlobals-trace m _ })

  pub wait_mrq-IsQuiet :
      (n : ℕ) (m : Machine) {u : Unit {0}} {m' : Machine}
      → wait_mrq env n m ≡ some (u, m')
      → IsQuiet m m'
  wait_mrq-IsQuiet n m h = elim (first_ready env n m.trace) [
    | inl (k, lt, r) ↦ rw (same_state (wait_mrq_ready env n k m lt r) h) (IsQuiet-seen m k)
    | inr r ↦ cc (wait_mrq_refused env n m r)
  ]

  pub fpy_read_data-IsQuiet :
      (m : Machine) {v : ℕ} {m' : Machine} → fpy_read_data env m ≡ some (v, m') → IsQuiet m m'
  unfolding fpy_read_data
  fpy_read_data-IsQuiet m h = elim (first_ready env 1000 m.trace) [
    | inl (k, lt, r) ↦
        rw (same_state (read_data_loop_ready env 1000 k m lt r) h)
          (record { writes = fifo_writes-polled env k m.trace; keeps = KeepsGlobals-trace m _ })
    | inr r ↦ rw (same_state (read_data_loop_refused env 1000 m r) h) (IsQuiet-polls m 1000)
  ]

  -- Sending one byte: the controller takes it, or the call times out and writes nothing.
  pub fpy_send_command_byte-Delivered :
      (c : ℕ) (m : Machine) {e : ErrT} {m' : Machine}
      → IsByte c
      → fpy_send_command_byte env c m ≡ some (e, m')
      → Delivered (c ∷ []) m e m'
  unfolding fpy_send_command_byte
  fpy_send_command_byte-Delivered c m {e} {m'} small h = elim (first_ready env 1000 m.trace) [
    | inl (k, lt, r) ↦
        let run = send_byte_loop_ready env c 1000 k m lt r in
        rw (same_value run h, same_state run h)
          (record {
            accepted = c ∷ [];
            left = [];
            splits = refl;
            writes = let fits : u8 c ≡ c = omega arith in rw (fifo_writes-polled, fits);
            complete = λ _. refl;
            short = λ n. absurd (n refl);
            not_dataio = λ p. cc;
            keeps = KeepsGlobals-trace m _;
          })
    | inr r ↦
        let run = send_byte_loop_refused env c 1000 m r in
        rw (same_value run h, same_state run h)
          (record {
            accepted = [];
            left = c ∷ [];
            splits = refl;
            writes = fifo_writes-polled env 1000 m.trace ∙ sym (append-nil _);
            complete = λ p. cc;
            short = λ _ n. n;
            not_dataio = λ p. cc;
            keeps = KeepsGlobals-trace m _;
          })
  ]

  module _ (fuel : ℕ) (msr : FpyMsr) (out : msr.dataio ≡ false) where
    nil_or_none :
        (cs : List ℕ) (m : Machine) {e : ErrT} {m' : Machine}
        → send_bytes env fuel msr cs m ≡ some (e, m')
        → (cs ≢ []) ⊎ (e ≡ none)
    unfolding send_bytes
    nil_or_none [] m h = inr (same_value refl h)
    nil_or_none (c ∷ cs) m h = inl (λ p. cc)

    pub send_bytes-Delivered :
        (cs : List ℕ) (m : Machine) {e : ErrT} {m' : Machine}
        → All IsByte cs
        → send_bytes env fuel msr cs m ≡ some (e, m')
        → Delivered cs m e m'
    unfolding send_bytes
    send_bytes-Delivered [] m small h =
        rw (same_value refl h, same_state refl h)
          (Delivered-nil (record { writes = refl; keeps = KeepsGlobals-trace m _ }))
    send_bytes-Delivered (c ∷ cs) m {e} {m'} (small, rest) h =
        let (u, m1, waited, h1) = >>=-eq-some (wait_mrq env fuel) _ m h in
        let h2 = rw out at h1 in
        Delivered-quiet (wait_mrq-IsQuiet fuel m waited)
          (elim (>>!-eq-some (fpy_send_command_byte env c) (send_bytes env fuel msr cs) m1 h2) [
            | inl (x, run, same) ↦ rw same (
                Delivered-stop (c ∷ []) cs (λ p. cc)
                  (fpy_send_command_byte-Delivered c m1 small run))
            | inr (m2, run, later) ↦
                Delivered-then (c ∷ []) cs (fpy_send_command_byte-Delivered c m1 small run)
                  (send_bytes-Delivered cs m2 rest later) (nil_or_none cs m2 later)
          ])

  finish-IsQuiet :
      (fuel : ℕ) (mrq : Bool) (m : Machine) {e : ErrT} {m' : Machine}
      → (elim mrq as (λ _. M ErrT) [ true ↦ do wait_mrq env fuel; pure none | false ↦ pure none ]) m
        ≡ some (e, m')
      → (e ≡ none) × IsQuiet m m'
  finish-IsQuiet fuel true m h =
      let (u, m1, waited, last) = >>=-eq-some (wait_mrq env fuel) (λ _. pure none) m h in
      (same_value refl last, rw (same_state refl last) (wait_mrq-IsQuiet fuel m waited))
  finish-IsQuiet fuel false m h = (
    same_value refl h,
    rw (same_state refl h) (record { writes = refl; keeps = KeepsGlobals-trace m _ }),
  )

  -- Whatever the controller does, if `fpy_send_command` returns, then the controller has taken a
  -- prefix of the command in order: the whole command on success, and on an error less than the
  -- whole, if the command has a byte. The error is never the one of the test of `msr.dataio` inside
  -- the loop, and no global variable has changed.
  pub fpy_send_command-Delivered :
      (fuel : ℕ) (cmd : List ℕ) (mrq : Bool) (m : Machine) {e : ErrT} {m' : Machine}
      → All IsByte cmd
      → fpy_send_command env fuel cmd mrq m ≡ some (e, m')
      → Delivered cmd m e m'
  unfolding fpy_send_command
  fpy_send_command-Delivered fuel cmd mrq m {e} {m'} small h =
      let (s, m1, read, h1) = >>=-eq-some (fpy_read_status env) _ m h in
      Delivered-quiet (fpy_read_status-IsQuiet m read) (answer s m1 h1)
    where
      answer :
          (s : FpyMsr) (m1 : Machine)
          → (elim (not s.mrq || s.dataio) as (λ _. M ErrT) [
            | true ↦ pure (some bad_msr_values)
            | false ↦
                send_bytes env fuel s cmd
                >>! elim mrq [ true ↦ do wait_mrq env fuel; pure none | false ↦ pure none ]
          ])
              m1
            ≡ some (e, m')
          → Delivered cmd m1 e m'
      answer s m1 h1 = elim (Bool-cases (not s.mrq || s.dataio)) [
        | inl bad ↦
            let h2 = rw bad at h1 in
            rw (same_value refl h2, same_state refl h2)
              (record {
                accepted = [];
                left = cmd;
                splits = refl;
                writes = sym (append-nil _);
                complete = λ p. cc;
                short = λ _ n. n;
                not_dataio = λ p. cc;
                keeps = KeepsGlobals-trace m1 _;
              })
        | inr good ↦ elim (>>!-eq-some (send_bytes env fuel s cmd) _ m1 (rw good at h1)) [
          | inl (x, run, same) ↦
              rw same (send_bytes-Delivered fuel s (ground arith) cmd m1 small run)
          | inr (m2, run, later) ↦
              let (same, quiet) = finish-IsQuiet fuel mrq m2 later in
              rw same
                (Delivered-last (send_bytes-Delivered fuel s (ground arith) cmd m1 small run) quiet)
        ]
      ]
