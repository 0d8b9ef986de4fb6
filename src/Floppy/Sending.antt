-- ===== src/Floppy/Sending.antt =====
-- What callers of `fpy_send_command` can count on: what has been sent when it returns, and that it
-- returns when the controller answers.
use toy_bootloader.Common.{
  ℕ, ◌≤◌, ◌≡◌, ◌≢◌, refl, sym, ap, ◌∙◌, Bool, true, false, none, some, List, [], ◌∷◌, ◌++◌, ◌⊎◌,
  inl, inr, test_bit, append-nil, append_assoc, All,
}
use toy_bootloader.Machine.{Trace, Env, Machine, Error, ErrT, msr_dataio}
use toy_bootloader.Floppy.Fifo.{fpy_send_command}
use toy_bootloader.Floppy.Polling.{Answers, fifo_writes, status}
use toy_bootloader.Floppy.Observed.{Observer, puts_all, command_seen}
use toy_bootloader.Floppy.Delivered.{KeepsGlobals, IsByte}
use toy_bootloader.Floppy.Delivery.{fpy_send_command-Delivered}

-- Whatever the controller does, if `fpy_send_command` returns, then the controller has taken a
-- prefix of the command in order: the whole command on success, and less than the whole on an
-- error. The error is never the one of the test of `msr.dataio` inside the loop, and no global
-- variable has changed. The command is not empty and its elements are bytes.
pub fpy_send_command_prefix :
    (env : Env) (fuel : ℕ) (cmd : List ℕ) (mrq : Bool) (m : Machine) {e : ErrT} {m' : Machine}
    → cmd ≢ []
    → All IsByte cmd
    → fpy_send_command env fuel cmd mrq m ≡ some (e, m')
    → (accepted : List ℕ) × (left : List ℕ) × (cmd ≡ accepted ++ left)
      × (fifo_writes m'.trace ≡ fifo_writes m.trace ++ accepted)
      × (((e ≡ none) × (left ≡ [])) ⊎ ((x : Error) × (e ≡ some x) × (x ≢ msr_dataio) × (left ≢ [])))
      × KeepsGlobals m m'
fpy_send_command_prefix env fuel cmd mrq m {e = none} {m' = m'} ne small h =
    let d = fpy_send_command-Delivered env fuel cmd mrq m small h in
    (d.accepted, d.left, d.splits, d.writes, inl (refl, d.complete refl), d.keeps)
fpy_send_command_prefix env fuel cmd mrq m {e = some x} {m' = m'} ne small h =
    let d = fpy_send_command-Delivered env fuel cmd mrq m small h in
    (
      d.accepted,
      d.left,
      d.splits,
      d.writes,
      inr (x, refl, (λ p. d.not_dataio (ap some p)), d.short (λ p. cc) ne),
      d.keeps,
    )

pub fifo_writes-Observer : Observer (List ℕ) fifo_writes (λ ws v. ws ++ (v ∷ []))
fifo_writes-Observer = record { poll = λ v t. refl; fifo_write = λ v t. refl }

-- The bytes of a command, one after the other, are the whole command.
pub puts_all-append : (ws cmd : List ℕ) → puts_all (λ ws v. ws ++ (v ∷ [])) ws cmd ≡ ws ++ cmd
puts_all-append ws [] = sym (append-nil ws)
puts_all-append ws (c ∷ cs) = puts_all-append (ws ++ (c ∷ [])) cs ∙ append_assoc ws (c ∷ []) cs

-- If the controller becomes ready within every `bound` polls, and `bound` is at most the 1000 polls of
-- a byte and the fuel of the loops that the source does not bound, then a command of bytes that starts
-- when the status register shows "ready" and "processor to controller" is sent as a whole and without
-- an error, and nothing but the trace changes.
pub fpy_send_command_sends :
    (env : Env) (bound : ℕ)
    → Answers env bound
    → (fuel : ℕ) (cmd : List ℕ) (mrq : Bool) (m : Machine) → bound ≤ 1000
    → bound ≤ fuel
    → All IsByte cmd
    → test_bit (status env m.trace) 7 ≡ true
    → test_bit (status env m.trace) 6 ≡ false
    → (t : Trace) × (fpy_send_command env fuel cmd mrq m ≡ some (none, record m { trace = t }))
      × (fifo_writes t ≡ fifo_writes m.trace ++ cmd)
fpy_send_command_sends env bound answers fuel cmd mrq m small le fits mrq_set out =
    let (t, run, seen) =
      command_seen (List ℕ) fifo_writes (λ ws v. ws ++ (v ∷ [])) fifo_writes-Observer env bound
        answers small fuel cmd mrq m le fits mrq_set out in
    (t, run, seen ∙ puts_all-append (fifo_writes m.trace) cmd)
