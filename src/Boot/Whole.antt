-- ===== src/Boot/Whole.antt =====
-- Stage 1 and stage 2 with the init table of the source.
use toy_bootloader.Common.{ℕ, ◌≡◌, some, All, Steps}
use toy_bootloader.Real.{RealTrace, Bios, RealMachine}
use toy_bootloader.Boot.Init.{LinkerVariables, init}
use toy_bootloader.Boot.InitLaws.{Attempts, HasSectors, Described, regs_for, init_lem}
use toy_bootloader.Stage2.LoadLaws.{Shared, shared, Acts}
use toy_bootloader.Stage2.Memory.{MemSec}
use toy_bootloader.Stage2.Cpuid.{max_entry, extra_entry, features_entry}
use toy_bootloader.Stage2.Table.{
  memory_entry, line_entry, segments_entry, disk_entry, stage2_entries,
}
use toy_bootloader.Stage2.TableLaws.{
  OpensLine, Ran, Ran-does, Steps-head, Steps-end, memory_asked, line_opened,
}
use toy_bootloader.Boot.Tasks.{
  GivesSectors, DoesMax, DoesExtra, DoesFeatures, DoesSegments, DoesDisk, DoesAll, returns-Acts,
  kept, does_max, does_extra, does_features, does_segments, does_disk, disk_kept, together,
}

module _ (env : Bios) (fuel : ℕ) (buffer : RealTrace → MemSec) (opens : OpensLine env)
    (gives : GivesSectors env) where
  entries-Acts : All (Acts Described Ran) (stage2_entries env fuel buffer)
  unfolding stage2_entries
  entries-Acts = (
    returns-Acts (memory_entry env fuel buffer) (λ s s'. s' ≡ s) (memory_asked env buffer)
        (λ s s' e ok. rw e ok),
    (
      returns-Acts (max_entry env) (DoesMax env) (does_max env)
          (λ s s' (t, cpu, props, segments) ok. kept s s' props ok),
      (
        returns-Acts (extra_entry env) (DoesExtra env) (does_extra env)
            (λ s s' (t, cpu, props, segments) ok. kept s s' props ok),
        (
          returns-Acts (features_entry env) (DoesFeatures env) (does_features env)
              (λ s s' (t, cpu, props, segments) ok. kept s s' props ok),
          (
            returns-Acts (line_entry env fuel buffer) (λ s s'. s' ≡ s)
                (λ m. line_opened env fuel m opens) (λ s s' e ok. rw e ok),
            (
              returns-Acts (segments_entry env fuel buffer) DoesSegments (does_segments env)
                  (λ s s' (cpu, props, segments) ok. kept s s' props ok),
              (
                returns-Acts (disk_entry env fuel buffer) (DoesDisk env) (does_disk env)
                    (disk_kept env gives),
                tt,
              ),
            ),
          ),
        ),
      ),
    ),
  )

  entries-DoesAll :
      {s s' : Shared} → Steps Ran (stage2_entries env fuel buffer) s s' → DoesAll env s s'
  unfolding stage2_entries
  entries-DoesAll {s} {s'} steps0 =
      let (s1, ran0, steps1) = Steps-head steps0 in
      let (s2, ran1, steps2) = Steps-head steps1 in
      let (s3, ran2, steps3) = Steps-head steps2 in
      let (s4, ran3, steps4) = Steps-head steps3 in
      let (s5, ran4, steps5) = Steps-head steps4 in
      let (s6, ran5, steps6) = Steps-head steps5 in
      let (s7, ran6, steps7) = Steps-head steps6 in
      together env s s1 s2 s3 s4 s5 s6 s7 s'
        (Ran-does (memory_entry env fuel buffer) (λ s s'. s' ≡ s) (memory_asked env buffer) ran0)
        (Ran-does (max_entry env) (DoesMax env) (does_max env) ran1)
        (Ran-does (extra_entry env) (DoesExtra env) (does_extra env) ran2)
        (Ran-does (features_entry env) (DoesFeatures env) (does_features env) ran3)
        (Ran-does (line_entry env fuel buffer) (λ s s'. s' ≡ s) (λ m. line_opened env fuel m opens)
          ran4)
        (Ran-does (segments_entry env fuel buffer) DoesSegments (does_segments env) ran5)
        (Ran-does (disk_entry env fuel buffer) (DoesDisk env) (does_disk env) ran6)
        (Steps-end steps7)

  -- If the BIOS opens the line 20 and the disk BIOS, when it reports no error, reports sectors, then
  -- `init`, with the table of stage 2 that the source has, comes to its jump into stage 3 from every
  -- state in which the disk has sectors or is not described yet. It has asked the disk BIOS for the
  -- shared code, for stage 2 and, with the properties that stage 2 left, for stage 3, each in one to
  -- three tries. In between, the descriptors were filled; the disk's properties are those of the
  -- reply to function 8 for the boot drive, or as before if that reported an error; and the globals of
  -- shared/cpuid.c are what the processor answered to the leaves 0x80000000, 0x80000001 and 1, where
  -- the leaf 0x80000001 leaves them alone on a processor without it.
  pub init_whole :
      (v : LinkerVariables) (m : RealMachine)
      → HasSectors m.props
      → (t1 t2 t3 : RealTrace) × (m2 : RealMachine) × (init env v (stage2_entries env fuel buffer) m
          ≡ some (tt, record m2 { trace = t3 }))
        × Attempts env m.props
            (regs_for m.props v.shared_first_section_index v.shared_load_count v.shared_start)
            m.trace
            t1
        × Attempts env m.props
            (regs_for m.props v.stage_2_first_section_index v.stage_2_load_count v.content_start)
            t1
            t2
        × Attempts env m2.props
            (regs_for m2.props v.stage_3_first_section_index v.stage_3_load_count v.content_start)
            m2.trace
            t3
        × DoesAll env (shared m) (shared m2)
  init_whole v m h =
      let (t1, t2, t3, m2, run, a1, a2, run2, steps, a3) =
        init_lem Ran env v (stage2_entries env fuel buffer) m entries-Acts h in
      (t1, t2, t3, m2, run, a1, a2, a3, entries-DoesAll steps)
