-- ===== src/Floppy/SectorId.antt =====
-- What `fpy_cmd_read_sector_id` of shared/floppy_impl.h reports as a success.
use toy_bootloader.Common.{
  ℕ, ◌≡◌, refl, ◌∙◌, true, false, none, some, ◌⊎◌, inl, inr, arith, Option-cases,
}
use toy_bootloader.Machine.{Env, Machine, ErrT, Error}
use toy_bootloader.Floppy.Types.{HeadParam, CheckInterruptRes, ReadSectorIdRes}
use toy_bootloader.Floppy.Status.{fpy_check_st0, fpy_check_st1, fpy_check_st2}
use toy_bootloader.Floppy.Fifo.{fpy_send_command}
use toy_bootloader.Floppy.Block.{head_block}
use toy_bootloader.Floppy.Irq.{fpy_wait_irq}
use toy_bootloader.Floppy.Commands.{is_error, fpy_cmd_read_sector_id}
use toy_bootloader.Floppy.Polling.{fifo_writes}
use toy_bootloader.Floppy.Results.{data_returns}

-- The field `succcess` is set, and the wait and the three status bytes are all errors; or it is clear,
-- and one of them is not.
abbrev pub Reversed : ErrT → ReadSectorIdRes → Type 0
Reversed e r =
    ((r.succcess ≡ true)
      × (is_error e ≡ true)
      × (is_error (fpy_check_st0 r.st0) ≡ true)
      × (is_error (fpy_check_st1 r.st1) ≡ true)
      × (is_error (fpy_check_st2 r.st2) ≡ true))
    ⊎ ((r.succcess ≡ false)
        × ((e ≡ none)
            ⊎ ((fpy_check_st0 r.st0 ≡ none)
                ⊎ ((fpy_check_st1 r.st1 ≡ none) ⊎ (fpy_check_st2 r.st2 ≡ none)))))

module _ (env : Env) (fuel : ℕ) (c : CheckInterruptRes) (params : HeadParam)
    (uninit : ReadSectorIdRes) where
  -- The call returns, after the wait has returned with `e` in `m`.
  abbrev AfterWait : ErrT → Machine → Machine → Type 0
  AfterWait e m2 m =
      (r : ReadSectorIdRes) × (m' : Machine) × (fpy_cmd_read_sector_id env fuel c params uninit m
        ≡ some (r, m'))
      × (fifo_writes m'.trace ≡ fifo_writes m2.trace)
      × Reversed e r

  after_wait :
      (m m1 m2 : Machine) (x : Error) (e : ErrT)
      → fpy_send_command env fuel (head_block 0xa params) false m ≡ some (some x, m1)
      → fpy_wait_irq env fuel c m1 ≡ some (e, m2)
      → AfterWait e m2 m
  unfolding fpy_cmd_read_sector_id
  after_wait m m1 m2 x none sent waited = (
    record uninit { succcess = false },
    m2,
    ground (arith, sent, waited),
    refl,
    inr (refl, inl refl),
  )
  after_wait m m1 m2 x (some y) sent waited =
      let (v0, t0, run0, w0) = data_returns env m2 in
      elim (Option-cases (fpy_check_st0 v0)) [
        | inl e0 ↦ (
          record uninit { succcess = false; st0 = v0 },
          record m2 { trace = t0 },
          ground (arith, sent, waited, run0, e0),
          w0,
          inr (refl, inr (inl e0)),
        )
        | inr (x0, e0) ↦
            let (v1, t1, run1, w1) = data_returns env (record m2 { trace = t0 }) in
            elim (Option-cases (fpy_check_st1 v1)) [
              | inl e1 ↦ (
                record uninit { succcess = false; st0 = v0; st1 = v1 },
                record m2 { trace = t1 },
                ground (arith, sent, waited, run0, e0, run1, e1),
                w1 ∙ w0,
                inr (refl, inr (inr (inl e1))),
              )
              | inr (x1, e1) ↦
                  let (v2, t2, run2, w2) = data_returns env (record m2 { trace = t1 }) in
                  elim (Option-cases (fpy_check_st2 v2)) [
                    | inl e2 ↦ (
                      record uninit { succcess = false; st0 = v0; st1 = v1; st2 = v2 },
                      record m2 { trace = t2 },
                      ground (arith, sent, waited, run0, e0, run1, e1, run2, e2),
                      w2 ∙ w1 ∙ w0,
                      inr (refl, inr (inr (inr e2))),
                    )
                    | inr (x2, e2) ↦
                        let (v3, t3, run3, w3) = data_returns env (record m2 { trace = t2 }) in
                        let (v4, t4, run4, w4) = data_returns env (record m2 { trace = t3 }) in
                        let (v5, t5, run5, w5) = data_returns env (record m2 { trace = t4 }) in
                        let (v6, t6, run6, w6) = data_returns env (record m2 { trace = t5 }) in
                        (
                          record {
                            succcess = true;
                            st0 = v0;
                            st1 = v1;
                            st2 = v2;
                            cylinder = v3;
                            head = v4;
                            sector = v5;
                            sector_size = v6;
                          },
                          record m2 { trace = t6 },
                          ground (
                            arith, sent, waited, run0, e0, run1, e1, run2, e2, run3, run4, run5,
                            run6,
                          ),
                          w6 ∙ w5 ∙ w4 ∙ w3 ∙ w2 ∙ w1 ∙ w0,
                          inl (
                            refl,
                            refl,
                            ground (arith, e0),
                            ground (arith, e1),
                            ground (arith, e2),
                          ),
                        )
                  ]
            ]
      ]

  -- Whatever the controller does, once the sending of its command has returned,
  -- `fpy_cmd_read_sector_id` reports the reverse of what has happened. If the command was sent without
  -- an error, it returns right there and says that it has failed. If it was not, and the wait for the
  -- interrupt does not end, the call does not return either. If the wait ends, the call returns, writes
  -- nothing more to the data register, and says that it has succeeded exactly if the wait and the
  -- checks of all three status bytes have ended with errors too.
  pub fpy_cmd_read_sector_id_lem :
      (m m1 : Machine) (e : ErrT)
      → fpy_send_command env fuel (head_block 0xa params) false m ≡ some (e, m1)
      → ((e ≡ none)
          × (fpy_cmd_read_sector_id env fuel c params uninit m
              ≡ some (record uninit { succcess = false }, m1)))
        ⊎ ((is_error e ≡ true)
            × (((fpy_wait_irq env fuel c m1 ≡ none)
                  × (fpy_cmd_read_sector_id env fuel c params uninit m ≡ none))
                ⊎ ((e1 : ErrT) × (m2 : Machine) × (fpy_wait_irq env fuel c m1 ≡ some (e1, m2))
                    × (r : ReadSectorIdRes) × (m' : Machine) × (fpy_cmd_read_sector_id env fuel c
                          params uninit m
                        ≡ some (r, m'))
                    × (fifo_writes m'.trace ≡ fifo_writes m2.trace)
                    × Reversed e1 r)))
  unfolding fpy_cmd_read_sector_id
  fpy_cmd_read_sector_id_lem m m1 none sent = inl (refl, ground (arith, sent))
  fpy_cmd_read_sector_id_lem m m1 (some x) sent = inr (
    refl,
    elim (Option-cases (fpy_wait_irq env fuel c m1)) [
      | inl stuck ↦ inl (stuck, ground (arith, sent, stuck))
      | inr ((e1, m2), waited) ↦
          let (r, m', run, writes, reversed) = after_wait m m1 m2 x e1 sent waited in
          inr (e1, m2, waited, r, m', run, writes, reversed)
    ],
  )
