-- ===== src/Boot/Tasks.antt =====
-- What each entry of stage 2's init table does to the globals, and all of them together.
use toy_bootloader.Common.{
  ℕ, ◌+◌, ◌/◌, ◌%◌, ◌*◌, ◌^◌, ◌<◌, ◌≡◌, refl, some, [], ◌∷◌, inl, inr, arith, ◌==◌, ltb,
  if◌then◌else◌, Bool-cases,
}
use toy_bootloader.Machine.{DiskProps}
use toy_bootloader.Real.{RealTrace, Regs, int, cpuid, lgdt, Bios, RealMachine}
use toy_bootloader.Boot.InitLaws.{Described}
use toy_bootloader.Stage2.Gdt.{fill_segments, gdt_setup}
use toy_bootloader.Stage2.Queries.{disk_props}
use toy_bootloader.Stage2.QueryLaws.{disk_props_lem}
use toy_bootloader.Stage2.Printing.{printed, printf-Prints}
use toy_bootloader.Stage2.Load.{RealInit}
use toy_bootloader.Stage2.LoadLaws.{Shared, shared, Acts}
use toy_bootloader.Stage2.Cpuid.{max_entry, extra_entry, features_entry}
use toy_bootloader.Stage2.CpuidLaws.{updated, max_asked, extra_asked, features_asked}
use toy_bootloader.Stage2.Table.{}
use toy_bootloader.Stage2.TableLaws.{Ran}

-- If the disk BIOS reports no error, it reports sectors.
abbrev pub GivesSectors : Bios → Type 0
GivesSectors env =
    (t : RealTrace) → (env.bios t).regs.ax / 2 ^ 8 % 2 ^ 8 ≡ 0 → 0 < (env.bios t).regs.cx % 2 ^ 6

-- The properties after the reply `r`.
abbrev pub described : DiskProps → Regs → DiskProps
described p r =
    if r.ax / 2 ^ 8 % 2 ^ 8 == 0
    then record p {
      drive_types = r.bx % 2 ^ 8;
      cylinder_number = r.cx / 2 ^ 8 % 2 ^ 8 + r.cx / 2 ^ 5 % 8 * 2 ^ 8;
      max_sector_number = r.cx % 2 ^ 6;
      max_head_number = (r.dx / 2 ^ 8 + 1) % 2 ^ 8;
      number_of_drives = r.dx % 2 ^ 8;
    }
    else p

-- The call of the disk BIOS for the properties of a drive.
abbrev pub asks : ℕ → RealTrace → RealTrace
asks drive t = int 0x13 (record { ax = 0x0800; bx = 0; cx = 0; dx = drive }) ∷ t

abbrev pub DoesMax : Bios → Shared → Shared → Type 0
DoesMax env s s' =
    (t : RealTrace) × (s'.cpu
      ≡ record (s.cpu) { max_cpuid = (env.do_cpuid (cpuid 0x80000000 ∷ t)).ax })
    × (s'.props ≡ s.props)
    × (s'.segments ≡ s.segments)

abbrev pub DoesExtra : Bios → Shared → Shared → Type 0
DoesExtra env s s' =
    (t : RealTrace) × (let r = env.do_cpuid (cpuid 0x80000001 ∷ t) in
      s'.cpu ≡ (
        if ltb s.cpu.max_cpuid 0x80000001
        then s.cpu
        else record (s.cpu) { extra_1c = r.cx; extra_1d = r.dx }))
    × (s'.props ≡ s.props)
    × (s'.segments ≡ s.segments)

abbrev pub DoesFeatures : Bios → Shared → Shared → Type 0
DoesFeatures env s s' =
    (t : RealTrace) × (let r = env.do_cpuid (cpuid 1 ∷ t) in
      s'.cpu ≡ record (s.cpu) {
        clflush_cl = r.bx / 2 ^ 8 % 2 ^ 4;
        loc_apic_id = r.bx / 2 ^ 24 % 2 ^ 4;
        proc_features = r.cx + r.dx * 2 ^ 32;
      })
    × (s'.props ≡ s.props)
    × (s'.segments ≡ s.segments)

abbrev pub DoesSegments : Shared → Shared → Type 0
DoesSegments s s' =
    (s'.cpu ≡ s.cpu) × (s'.props ≡ s.props) × (s'.segments ≡ fill_segments s.segments)

abbrev pub DoesDisk : Bios → Shared → Shared → Type 0
DoesDisk env s s' =
    (t : RealTrace) × (s'.props ≡ described s.props (env.bios (asks s.props.drive_number t)).regs)
    × (s'.cpu ≡ s.cpu)
    × (s'.segments ≡ s.segments)

-- A function that always returns, and that keeps the properties described.
pub returns-Acts :
    (f : RealInit) (Does : Shared → Shared → Type 0)
    → ((m : RealMachine)
        → (m' : RealMachine) × (f.fun m ≡ some (tt, m')) × Does (shared m) (shared m'))
    → ((s s' : Shared) → Does s s' → Described s → Described s')
    → Acts Described Ran f
returns-Acts f Does h keeps m ok =
    let (m', run, does) = h m in
    (
      m',
      run,
      keeps (shared m) (shared m') does ok,
      record { from = m; to = m'; before = refl; after = refl; run = run },
    )

pub kept : (s s' : Shared) → s'.props ≡ s.props → Described s → Described s'
kept s s' e ok = rw e ok

module _ (env : Bios) where
  pub does_max :
      (m : RealMachine)
      → let f = max_entry env in
        (m' : RealMachine) × (f.fun m ≡ some (tt, m')) × DoesMax env (shared m) (shared m')
  does_max m =
      let (t, m', run, cpu, (props, segments)) = max_asked env m in
      (m', run, (t, cpu, props, segments))

  pub does_extra :
      (m : RealMachine)
      → let f = extra_entry env in
        (m' : RealMachine) × (f.fun m ≡ some (tt, m')) × DoesExtra env (shared m) (shared m')
  does_extra m =
      let (t, m', run, cpu, (props, segments)) = extra_asked env m in
      (m', run, (t, cpu, props, segments))

  pub does_features :
      (m : RealMachine)
      → let f = features_entry env in
        (m' : RealMachine) × (f.fun m ≡ some (tt, m')) × DoesFeatures env (shared m) (shared m')
  does_features m =
      let (t, m', run, cpu, (props, segments)) = features_asked env m in
      (m', run, (t, cpu, props, segments))

  pub does_segments :
      (m : RealMachine)
      → (m' : RealMachine) × (gdt_setup env m ≡ some (tt, m')) × DoesSegments (shared m) (shared m')
  unfolding gdt_setup
  does_segments m =
      let d = printf-Prints env "| starting gdt setup\n" [] m in
      let m1 = printed m d in
      (
        record m1 { trace = lgdt 31 ∷ m1.trace; segments = fill_segments m1.segments },
        ground (arith, d.returns),
        (refl, refl, refl),
      )

  pub does_disk :
      (m : RealMachine)
      → (m' : RealMachine) × (disk_props env m ≡ some (tt, m'))
        × DoesDisk env (shared m) (shared m')
  does_disk m =
      let (m', run, props, cpu, segments) = disk_props_lem env m in
      (
        m',
        run,
        ((printf-Prints env "| reading disk properties\n" [] m).trace, props, cpu, segments),
      )

  pub disk_kept :
      (gives : GivesSectors env) (s s' : Shared) → DoesDisk env s s' → Described s → Described s'
  disk_kept gives s s' (t, e, cpu, segments) ok =
      let r = (env.bios (asks s.props.drive_number t)).regs in
      elim (Bool-cases (r.ax / 2 ^ 8 % 2 ^ 8 == 0)) [
        | inl fine ↦
            let some' = gives (asks s.props.drive_number t) (ground (arith, fine)) in
            inr (rw (e, fine) some')
        | inr failed ↦ rw (e, failed) ok
      ]

module _ (env : Bios) where
  -- What the whole table does.
  abbrev pub DoesAll : Shared → Shared → Type 0
  DoesAll s s' =
      (s'.segments ≡ fill_segments s.segments)
      × ((t : RealTrace) × (s'.props
            ≡ described s.props (env.bios (asks s.props.drive_number t)).regs))
      × ((t0 t1 t2 : RealTrace) × (let max = (env.do_cpuid (cpuid 0x80000000 ∷ t0)).ax in
            let r1 = env.do_cpuid (cpuid 0x80000001 ∷ t1) in
            let r2 = env.do_cpuid (cpuid 1 ∷ t2) in
            s'.cpu ≡ record {
              clflush_cl = r2.bx / 2 ^ 8 % 2 ^ 4;
              loc_apic_id = r2.bx / 2 ^ 24 % 2 ^ 4;
              proc_features = r2.cx + r2.dx * 2 ^ 32;
              max_cpuid = max;
              extra_1c = if ltb max 0x80000001 then s.cpu.extra_1c else r1.cx;
              extra_1d = if ltb max 0x80000001 then s.cpu.extra_1d else r1.dx;
            }))

  -- The seven functions, one after the other.
  pub together :
      (s s1 s2 s3 s4 s5 s6 s7 s' : Shared)
      → s1 ≡ s
      → DoesMax env s1 s2
      → DoesExtra env s2 s3
      → DoesFeatures env s3 s4
      → s5 ≡ s4
      → DoesSegments s5 s6
      → DoesDisk env s6 s7
      → s' ≡ s7
      → DoesAll s s'
  together s s1 s2 s3 s4 s5 s6 s7 s' e0 (t1, cpu1, props1, segments1) (t2, cpu2, props2, segments2)
        (t3, cpu3, props3, segments3) e4 (cpu5, props5, segments5) (t6, props6, cpu6, segments6)
        e7 =
      (
        rw (e7, segments6, segments5, e4, segments3, segments2, segments1, e0) refl,
        (t6, rw (e7, props6, props5, e4, props3, props2, props1, e0) refl),
        (t1, t2, t3, rw (e7, cpu6, cpu5, e4, cpu3, cpu2, cpu1, e0) (updated s.cpu _ _ _ _ _ _)),
      )
