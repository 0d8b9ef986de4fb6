-- ===== src/Floppy/Results.antt =====
-- The result phase of the commands with a nine-byte block.
use toy_bootloader.Common.{false, ℕ, ◌≡◌, refl, ◌∙◌, none, some, ◌⊎◌, inl, inr, arith, Option-cases}
use toy_bootloader.Machine.{Trace, Env, Machine, Error}
use toy_bootloader.Floppy.Types.{ReadtrackRes, HeadParam, CheckInterruptRes, ReadSectorIdRes}
use toy_bootloader.Floppy.Status.{fpy_check_st0, fpy_check_st1, fpy_check_st2}
use toy_bootloader.Floppy.Fifo.{fpy_read_data, fpy_send_command}
use toy_bootloader.Floppy.Block.{head_block}
use toy_bootloader.Floppy.Commands.{fpy_cmd_gen_res, fpy_cmd_read_sector_id}
use toy_bootloader.Floppy.Polling.{
  fifo_writes, first_ready, fifo_writes-polled, read_data_loop_ready, read_data_loop_refused,
}

module _ (env : Env) where
  pub data_returns :
      (m : Machine)
      → (v : ℕ) × (t : Trace) × (fpy_read_data env m ≡ some (v, record m { trace = t }))
        × (fifo_writes t ≡ fifo_writes m.trace)
  unfolding fpy_read_data
  data_returns m = elim (first_ready env 1000 m.trace) [
    | inl (k, lt, r) ↦
        (_, _, read_data_loop_ready env 1000 k m lt r, fifo_writes-polled env k m.trace)
    | inr r ↦ (0xFF, _, read_data_loop_refused env 1000 m r, fifo_writes-polled env 1000 m.trace)
  ]

  -- Whatever the controller does, `fpy_cmd_gen_res` returns, writes nothing to the data register and
  -- changes nothing but the trace. It reports no error exactly if the three status bytes that it has
  -- stored pass their checks, and an error is that of the first byte that fails.
  pub fpy_cmd_gen_res_lem :
      (res : ReadtrackRes) (m : Machine)
      → (r : ReadtrackRes) × (t : Trace) × (fpy_cmd_gen_res env res m
          ≡ some (r, record m { trace = t }))
        × (fifo_writes t ≡ fifo_writes m.trace)
        × (((r.error ≡ none)
              × (fpy_check_st0 r.st0 ≡ none)
              × (fpy_check_st1 r.st1 ≡ none)
              × (fpy_check_st2 r.st2 ≡ none))
            ⊎ ((x : Error) × (r.error ≡ some x)
                × ((fpy_check_st0 r.st0 ≡ some x)
                    ⊎ (((fpy_check_st0 r.st0 ≡ none) × (fpy_check_st1 r.st1 ≡ some x))
                        ⊎ ((fpy_check_st0 r.st0 ≡ none)
                            × (fpy_check_st1 r.st1 ≡ none)
                            × (fpy_check_st2 r.st2 ≡ some x))))))
  unfolding fpy_cmd_gen_res
  fpy_cmd_gen_res_lem res m =
      let (v0, t0, run0, w0) = data_returns m in
      elim (Option-cases (fpy_check_st0 v0)) [
        | inr (x, e0) ↦ (
          record res { error = fpy_check_st0 v0; st0 = v0 },
          t0,
          ground (arith, run0, e0),
          w0,
          inr (x, e0, inl e0),
        )
        | inl e0 ↦
            let (v1, t1, run1, w1) = data_returns (record m { trace = t0 }) in
            elim (Option-cases (fpy_check_st1 v1)) [
              | inr (x, e1) ↦ (
                record res { error = fpy_check_st1 v1; st0 = v0; st1 = v1 },
                t1,
                ground (arith, run0, e0, run1, e1),
                w1 ∙ w0,
                inr (x, e1, inr (inl (e0, e1))),
              )
              | inl e1 ↦
                  let (v2, t2, run2, w2) = data_returns (record m { trace = t1 }) in
                  elim (Option-cases (fpy_check_st2 v2)) [
                    | inr (x, e2) ↦ (
                      record res { error = fpy_check_st2 v2; st0 = v0; st1 = v1; st2 = v2 },
                      t2,
                      ground (arith, run0, e0, run1, e1, run2, e2),
                      w2 ∙ w1 ∙ w0,
                      inr (x, e2, inr (inr (e0, e1, e2))),
                    )
                    | inl e2 ↦
                        let (v3, t3, run3, w3) = data_returns (record m { trace = t2 }) in
                        let (v4, t4, run4, w4) = data_returns (record m { trace = t3 }) in
                        let (v5, t5, run5, w5) = data_returns (record m { trace = t4 }) in
                        let (v6, t6, run6, w6) = data_returns (record m { trace = t5 }) in
                        (
                          record res {
                            error = none;
                            st0 = v0;
                            st1 = v1;
                            st2 = v2;
                            cylinder = v3;
                            head = v4;
                            sector = v5;
                            sector_size = v6;
                          },
                          t6,
                          ground (arith, run0, e0, run1, e1, run2, e2, run3, run4, run5, run6),
                          w6 ∙ w5 ∙ w4 ∙ w3 ∙ w2 ∙ w1 ∙ w0,
                          inl (refl, e0, e1, e2),
                        )
                  ]
            ]
      ]

-- For every controller and every drive: if the command is sent without an error, then
-- `fpy_cmd_read_sector_id` returns right there, says that it has failed, and has read no result.
pub fpy_cmd_read_sector_id_stops :
    (env : Env) (fuel : ℕ) (c : CheckInterruptRes) (params : HeadParam) (uninit : ReadSectorIdRes)
    (m : Machine) {m' : Machine}
    → fpy_send_command env fuel (head_block 0xa params) false m ≡ some (none, m')
    → fpy_cmd_read_sector_id env fuel c params uninit m
      ≡ some (record uninit { succcess = false }, m')
unfolding fpy_cmd_read_sector_id
fpy_cmd_read_sector_id_stops env fuel c params uninit m h = ground (arith, h)
