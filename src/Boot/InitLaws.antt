-- ===== src/Boot/InitLaws.antt =====
-- What the first stage asks the disk BIOS for, and with which properties of the disk.
use toy_bootloader.Common.{
  ℕ, suc, ◌<◌, ◌≤◌, ◌≡◌, refl, true, some, List, arith, ◌⊎◌, All, u8, Steps,
}
use toy_bootloader.Machine.{DiskProps}
use toy_bootloader.Real.{RealTrace, Regs, Bios, RealMachine}
use toy_bootloader.Boot.Copy.{start_of, read_regs, copy_kernel}
use toy_bootloader.Boot.Retries.{after, Fails, good, copy_kernel_tries}
use toy_bootloader.Boot.Init.{LinkerVariables, init}
use toy_bootloader.Stage2.Load.{RealInit, stage2_load}
use toy_bootloader.Stage2.LoadLaws.{Shared, shared, Acts, stage2_load-Steps}

-- The trace goes on by one to three tries of the read `r`: every try but the last has failed, and the
-- last has succeeded unless it is the third.
pub record Attempts (env : Bios) (p : DiskProps) (r : Regs) (t t' : RealTrace) : Type 0 where
  pub retries : ℕ
  pub limit : retries ≤ 2
  pub trace : t' ≡ after p r (suc retries) t
  pub fails : Fails env p r retries t
  pub last : (good env p r (after p r retries t) ≡ true) ⊎ (retries ≡ 2)

-- The disk has sectors, or it is not described yet.
abbrev pub HasSectors : DiskProps → Type 0
HasSectors p = (p.max_head_number ≡ 0) ⊎ (0 < p.max_sector_number)

-- The registers of the read of `count` sectors from `index` on, both taken as a `uint8_t`.
abbrev pub regs_for : DiskProps → ℕ → ℕ → ℕ → Regs
regs_for p index count dest = read_regs p (start_of p (u8 index)) (u8 count) dest

copy_kernel-Attempts :
    (env : Bios) (index count dest : ℕ) (m : RealMachine)
    → HasSectors m.props
    → (t : RealTrace) × (copy_kernel env (u8 index) (u8 count) dest m
        ≡ some (tt, record m { trace = t }))
      × Attempts env m.props (regs_for m.props index count dest) m.trace t
copy_kernel-Attempts env index count dest m h =
    let (k, le, run, fails, last) = copy_kernel_tries env (u8 index) (u8 count) dest m h in
    (_, run, record { retries = k; limit = le; trace = refl; fails = fails; last = last })

-- What stage 2 is to keep of the shared globals.
abbrev pub Described : Shared → Type 0
Described s = HasSectors s.props

module _ (Effect : RealInit → Shared → Shared → Type 0) where
  -- If every function of stage 2's init table returns from every state in which the disk has sectors or
  -- is not described yet, to such a state, then `init` comes to its jump from every such state. It has
  -- then asked the disk BIOS for the shared code and for stage 2, in this order, with the properties
  -- of the start; then stage 2 has run the functions of its table in order; then it has asked for
  -- stage 3 with the properties that stage 2 left. Each read has one to three tries, as `Attempts`
  -- says.
  pub init_lem :
      (env : Bios) (v : LinkerVariables) (inits : List RealInit) (m : RealMachine)
      → All (Acts Described Effect) inits
      → HasSectors m.props
      → (t1 t2 t3 : RealTrace) × (m2 : RealMachine) × (init env v inits m
          ≡ some (tt, record m2 { trace = t3 }))
        × Attempts env m.props
            (regs_for m.props v.shared_first_section_index v.shared_load_count v.shared_start)
            m.trace
            t1
        × Attempts env m.props
            (regs_for m.props v.stage_2_first_section_index v.stage_2_load_count v.content_start)
            t1
            t2
        × (stage2_load env inits (record m { trace = t2 }) ≡ some (tt, m2))
        × Steps Effect inits (shared m) (shared m2)
        × Attempts env m2.props
            (regs_for m2.props v.stage_3_first_section_index v.stage_3_load_count v.content_start)
            m2.trace
            t3
  unfolding init
  init_lem env v inits m acts h =
      let (t1, run1, a1) =
        copy_kernel-Attempts env v.shared_first_section_index v.shared_load_count v.shared_start m
          h in
      let (t2, run2, a2) =
        copy_kernel-Attempts env v.stage_2_first_section_index v.stage_2_load_count v.content_start
          (record m { trace = t1 }) h in
      let (m2, run, h2, steps) =
        stage2_load-Steps env Described Effect inits (record m { trace = t2 }) acts h in
      let (t3, run3, a3) =
        copy_kernel-Attempts env v.stage_3_first_section_index v.stage_3_load_count v.content_start
          m2 h2 in
      (t1, t2, t3, m2, ground (arith, run1, run2, run, run3), a1, a2, run, steps, a3)
