-- ===== src/Stage2/LoadLaws.antt =====
-- The order of the functions of stage 2's init table.
use toy_bootloader.Common.{
  ℕ, zero, suc, ◌+◌, ◌≡◌, refl, some, List, [], ◌∷◌, arith, All, length, Steps, done, step, u16,
  ltb, ◌==◌, if◌then◌else◌,
}
use toy_bootloader.Machine.{DiskProps}
use toy_bootloader.Real.{Bios, Segments, CpuidInfos, RealMachine}
use toy_bootloader.Stage2.Screen.{bar_cells, update_progress_bar, color_code, yellow}
use toy_bootloader.Stage2.Printing.{Prints, printed, putc-Prints, puts-Prints, printf-Prints}
use toy_bootloader.Stage2.Load.{
  RealInit, task_args, run_tasks, stage2_load, stage_2_loaded, executing_stage_2,
}

-- What the later stages read of stage 2's work.
pub record Shared : Type 0 where
  pub props : DiskProps
  pub segments : Segments
  pub cpu : CpuidInfos

abbrev pub shared : RealMachine → Shared
shared m = record { props = m.props; segments = m.segments; cpu = m.cpu }

-- From every state whose shared globals are in `P` the function returns to such a state, and what it
-- does to the shared globals is one of its effects.
abbrev pub Acts : (Shared → Type 0) → (RealInit → Shared → Shared → Type 0) → RealInit → Type 0
Acts P Effect f =
    (m : RealMachine)
    → P (shared m)
    → (m' : RealMachine) × (f.fun m ≡ some (tt, m'))
      × P (shared m')
      × Effect f (shared m) (shared m')

module _ (env : Bios) where
  bar_cells-Prints : (n i curr : ℕ) (m : RealMachine) → Prints (bar_cells env n i curr) m
  unfolding bar_cells
  bar_cells-Prints zero i curr m = record {
    trace = m.trace;
    cursor_pos = m.cursor_pos;
    cur_color = m.cur_color;
    returns = refl;
  }
  bar_cells-Prints (suc n) i curr m =
      let d = putc-Prints env (if ltb i curr then b'=' else if i == curr then b'>' else b' ') m in
      let e = bar_cells-Prints n (i + 1) curr (printed m d) in
      record {
        trace = e.trace;
        cursor_pos = e.cursor_pos;
        cur_color = e.cur_color;
        returns = ground (arith, d.returns, e.returns);
      }

  pub update_progress_bar-Prints :
      (curr count : ℕ) (m : RealMachine) → Prints (update_progress_bar env curr count) m
  unfolding update_progress_bar color_code
  update_progress_bar-Prints curr count m =
      let m0 = record m { cursor_pos = m.progress_cursor; cur_color = color_code yellow } in
      let d1 = putc-Prints env b'[' m0 in
      let m1 = printed m0 d1 in
      let d2 = bar_cells-Prints count 1 curr m1 in
      let m2 = printed m1 d2 in
      let d3 = putc-Prints env b']' m2 in
      record {
        trace = d3.trace;
        cursor_pos = m.cursor_pos;
        cur_color = m.cur_color;
        returns = ground (arith, d1.returns, d2.returns, d3.returns);
      }

  module _ (P : Shared → Type 0) (Effect : RealInit → Shared → Shared → Type 0) where
    run_tasks-Steps :
        (current count : ℕ) (inits : List RealInit) (m : RealMachine)
        → All (Acts P Effect) inits
        → P (shared m)
        → (m' : RealMachine) × (run_tasks env current count inits m ≡ some (tt, m'))
          × P (shared m')
          × Steps Effect inits (shared m) (shared m')
    unfolding run_tasks
    run_tasks-Steps current count [] m h ok = (m, refl, ok, done (shared m))
    run_tasks-Steps current count (f ∷ fs) m (h, hs) ok =
        let d1 = update_progress_bar-Prints current count m in
        let m1 = printed m d1 in
        let d2 =
          printf-Prints env "executing `%c%s%c` in `%c%s%c` (%c%hu%c of %c%hu%c)\n"
            (task_args f current count) m1 in
        let (m2, run, ok2, eff) = h (printed m1 d2) ok in
        let d3 = printf-Prints env "done\n\n" [] m2 in
        let (m', rest, ok', steps) =
          run_tasks-Steps (u16 (current + 1)) count fs (printed m2 d3) hs ok2 in
        (
          m',
          ground (arith, d1.returns, d2.returns, run, d3.returns, rest),
          ok',
          step f fs _ _ _ eff steps,
        )

    -- For a condition on the globals that the later stages read: if every function of the init table
    -- returns from every state of the condition, to such a state, then so does `stage2_load`, for every
    -- table; and what it does to those globals is what the functions of the table do, each run once and
    -- in the order of the table.
    pub stage2_load-Steps :
        (inits : List RealInit) (m : RealMachine)
        → All (Acts P Effect) inits
        → P (shared m)
        → (m' : RealMachine) × (stage2_load env inits m ≡ some (tt, m'))
          × P (shared m')
          × Steps Effect inits (shared m) (shared m')
    unfolding stage2_load
    stage2_load-Steps inits m h ok =
        let d1 = puts-Prints env stage_2_loaded m in
        let m1 = record (printed m d1) { cur_color = 7 } in
        let d2 = puts-Prints env executing_stage_2 m1 in
        let m2' = printed m1 d2 in
        let m2 = record m2' { progress_cursor = m2'.cursor_pos } in
        let d3 = puts-Prints env (b'\n' ∷ []) m2 in
        let count = u16 (length inits) in
        let (m3, run, ok3, steps) = run_tasks-Steps 1 count inits (printed m2 d3) h ok in
        let d4 = update_progress_bar-Prints (u16 (count + 1)) count m3 in
        let m4 = printed m3 d4 in
        let d5 = printf-Prints env "stage 2 finished\n\n " [] m4 in
        (
          printed m4 d5,
          ground (arith, d1.returns, d2.returns, d3.returns, run, d4.returns, d5.returns),
          ok3,
          steps,
        )
