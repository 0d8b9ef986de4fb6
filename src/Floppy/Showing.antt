-- ===== src/Floppy/Showing.antt =====
-- A controller that shows its phase, and whose results are open: commands and results on it.
use toy_bootloader.Common.{
  ℕ, zero, suc, ◌+◌, ◌<◌, ◌≤◌, ◌≡◌, refl, ap, ◌∙◌, Bool, true, false, none, some, List, [], ◌∷◌,
  ◌++◌, All, ◌⊎◌, inl, inr, arith, test_bit, Option-cases,
}
use toy_bootloader.Machine.{Trace, inb, idle, bad_msr_values, Error, ErrT, Env, Machine, do_inb}
use toy_bootloader.Floppy.Types.{ReadtrackRes, ReadSectorParams}
use toy_bootloader.Floppy.Status.{
  fpy_msr, fpy_read_status, msr_of_byte, fpy_check_st0, fpy_check_st1, fpy_check_st2,
}
use toy_bootloader.Floppy.Fifo.{fpy_read_data, fpy_send_command}
use toy_bootloader.Floppy.IrqLaws.{RaisesAfter, idles}
use toy_bootloader.Floppy.Commands.{fpy_cmd_gen_res}
use toy_bootloader.Floppy.Polling.{Answers, status, polled, fifo_writes}
use toy_bootloader.Floppy.Observed.{puts_all, obs-polled, command_seen, data_seen}
use toy_bootloader.Floppy.Controller.{
  Phase, command, result, put, get, phase, phase-Observer, HasRead,
}
use toy_bootloader.Floppy.Delivered.{IsByte}
use toy_bootloader.Floppy.Sensing.{View, view, put_view, view-Observer, puts_all-view}

-- A controller that shows its phase in the status register. What its results say is open.
pub record Shows (env : Env) (bound : ℕ) : Type 0 where
  pub answers : Answers env bound
  pub accepts : (t : Trace) → phase t ≡ command [] → test_bit (status env t) 7 ≡ true
  pub listens : (t : Trace) → phase t ≡ command [] → test_bit (status env t) 6 ≡ false
  pub offers :
      (t : Trace) (b : List ℕ) (n : ℕ) → phase t ≡ result b n → test_bit (status env t) 6 ≡ true

-- The controller raises its interrupt after a read.
abbrev pub RingsAfterRead : Env → ℕ → Type 0
RingsAfterRead env bound =
    (t : Trace) (p : ReadSectorParams)
    → HasRead t p
    → (k : ℕ) × (k + 1 < bound) × RaisesAfter env k t

-- `fpy_send_command` is refused after one read of the status register, whatever its bytes and however
-- many calls were refused before. `fpy_send_command_byte` has no such test.
abbrev pub Refused : Env → ℕ → Machine → Type 0
Refused env fuel m =
    (k : ℕ) (cmd : List ℕ) (mrq : Bool)
    → fpy_send_command env fuel cmd mrq (record m { trace = polled env k m.trace })
      ≡ some (some bad_msr_values, record m { trace = polled env (suc k) m.trace })

-- The results are read to their end, or some of them are left.
abbrev pub Ends : List ℕ → List ℕ → ErrT → Trace → Type 0
Ends b ws e t =
    ((e ≡ none) × (view t ≡ (command [], ws)))
    ⊎ ((x : Error) × (e ≡ some x) × (n : ℕ) × (view t ≡ (result b n, ws)))

polled_last :
    (env : Env) (k : ℕ) (t : Trace)
    → polled env (suc k) t ≡ inb fpy_msr (status env (polled env k t)) ∷ polled env k t
unfolding polled
polled_last env zero t = refl
polled_last env (suc k) t = polled_last env k (inb fpy_msr (status env t) ∷ t)

pub view-idles : (k : ℕ) (t : Trace) → view (idles k t) ≡ view t
unfolding phase
view-idles zero t = refl
view-idles (suc k) t = view-idles k (idle ∷ t)

module _ (env : Env) (fuel bound : ℕ) (shows : Shows env bound) (small : bound ≤ 1000)
    (enough : bound ≤ fuel) where
  pub fpy_send_command-Refused :
      (m : Machine) (b : List ℕ) (n : ℕ) → phase m.trace ≡ result b n → Refused env fuel m
  unfolding fpy_send_command fpy_read_status msr_of_byte do_inb
  fpy_send_command-Refused m b n h k cmd mrq =
      let t = polled env k m.trace in
      let same =
        obs-polled Phase phase put phase-Observer env bound shows.answers small k m.trace in
      let out = shows.offers t b n (same ∙ h) in
      let last = polled_last env k m.trace in rw last (ground (arith, out))

  -- A whole command.
  pub whole_sent :
      (cmd : List ℕ) (mrq : Bool) (m : Machine) (f : Phase)
      → All IsByte cmd
      → phase m.trace ≡ command []
      → puts_all put (command []) cmd ≡ f
      → (t : Trace) × (fpy_send_command env fuel cmd mrq m ≡ some (none, record m { trace = t }))
        × (view t ≡ (f, fifo_writes m.trace ++ cmd))
  whole_sent cmd mrq m f fits start ends =
      let ws = fifo_writes m.trace in
      let (t, run, seen) =
        command_seen View view put_view view-Observer env bound shows.answers small fuel cmd mrq m
          enough fits (shows.accepts m.trace start) (shows.listens m.trace start) in
      (
        t,
        run,
        seen
            ∙ ap (λ (f : Phase). puts_all put_view (f, ws) cmd) start
            ∙ puts_all-view (command []) ws cmd
            ∙ ap (λ (f : Phase). (f, ws ++ cmd)) ends,
      )

  -- One byte of the results.
  pub one_read :
      (m : Machine) (f : Phase) (ws : List ℕ)
      → view m.trace ≡ (f, ws)
      → (v : ℕ) × (t : Trace) × (fpy_read_data env m ≡ some (v, record m { trace = t }))
        × (view t ≡ (get f, ws))
  unfolding phase
  one_read m f ws start =
      let (t, same, run) =
        data_seen View view put_view view-Observer env bound shows.answers small m in
      (_, _, run, ap (λ (v : View). (get v.0, v.1)) (same ∙ start))

  pub results_end :
      (b ws : List ℕ) (res : ReadtrackRes) (m : Machine)
      → view m.trace ≡ (result b 7, ws)
      → (r : ReadtrackRes) × (t : Trace) × (fpy_cmd_gen_res env res m
          ≡ some (r, record m { trace = t }))
        × Ends b ws r.error t
  unfolding fpy_cmd_gen_res
  results_end b ws res m p =
      let (v0, t0, run0, p0) = one_read m _ _ p in
      elim (Option-cases (fpy_check_st0 v0)) [
        | inr (x, e0) ↦ (
          record res { error = fpy_check_st0 v0; st0 = v0 },
          t0,
          ground (arith, run0, e0),
          inr (x, e0, 6, p0),
        )
        | inl e0 ↦
            let (v1, t1, run1, p1) = one_read (record m { trace = t0 }) _ _ p0 in
            elim (Option-cases (fpy_check_st1 v1)) [
              | inr (x, e1) ↦ (
                record res { error = fpy_check_st1 v1; st0 = v0; st1 = v1 },
                t1,
                ground (arith, run0, e0, run1, e1),
                inr (x, e1, 5, p1),
              )
              | inl e1 ↦
                  let (v2, t2, run2, p2) = one_read (record m { trace = t1 }) _ _ p1 in
                  elim (Option-cases (fpy_check_st2 v2)) [
                    | inr (x, e2) ↦ (
                      record res { error = fpy_check_st2 v2; st0 = v0; st1 = v1; st2 = v2 },
                      t2,
                      ground (arith, run0, e0, run1, e1, run2, e2),
                      inr (x, e2, 4, p2),
                    )
                    | inl e2 ↦
                        let (v3, t3, run3, p3) = one_read (record m { trace = t2 }) _ _ p2 in
                        let (v4, t4, run4, p4) = one_read (record m { trace = t3 }) _ _ p3 in
                        let (v5, t5, run5, p5) = one_read (record m { trace = t4 }) _ _ p4 in
                        let (v6, t6, run6, p6) = one_read (record m { trace = t5 }) _ _ p5 in
                        (
                          record res {
                            error = none;
                            st0 = v0;
                            st1 = v1;
                            st2 = v2;
                            cylinder = v3;
                            head = v4;
                            sector = v5;
                            sector_size = v6;
                          },
                          t6,
                          ground (arith, run0, e0, run1, e1, run2, e2, run3, run4, run5, run6),
                          inl (refl, p6),
                        )
                  ]
            ]
      ]
