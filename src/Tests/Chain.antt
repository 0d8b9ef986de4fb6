-- ===== src/Tests/Chain.antt =====
-- Stage 3's entries for the disk on the drive in good order, and a read from a drive whose status bytes
-- are bad.
use toy_bootloader.Common.{
  ℕ, ◌≡◌, ◌⊎◌, refl, ap, List, true, false, none, some, arith, ◌==◌, if◌then◌else◌, test_bit, u8,
  ◌∷◌, ◌++◌, [],
}
use toy_bootloader.Machine.{Env, Error, Machine}
use toy_bootloader.Dma.Chip.{Channel, channel2, is_programmed}
use toy_bootloader.Floppy.Types.{ReadtrackRes}
use toy_bootloader.Floppy.Status.{fpy_msr, fpy_fifo}
use toy_bootloader.Floppy.Block.{read_block, drive_head}
use toy_bootloader.Floppy.Commands.{fpy_cmd_read_sector}
use toy_bootloader.Floppy.Polling.{polled, fifo_writes}
use toy_bootloader.Floppy.Read.{read_params, chs_of_lba}
use toy_bootloader.Floppy.Controller.{Phase, command, result, phase}
use toy_bootloader.Floppy.Reading.{IsReady}
use toy_bootloader.Floppy.Safety.{Command}
use toy_bootloader.Floppy.Phases.{InStep}
use toy_bootloader.Floppy.Showing.{Shows, RingsAfterRead, Refused}
use toy_bootloader.Floppy.Unread.{fpy_cmd_read_sector_blocks}
use toy_bootloader.Floppy.Sensed.{Rings}
use toy_bootloader.Stage3.Drive.{floppy_init}
use toy_bootloader.Stage3.Calibrating.{SenseFailed}
use toy_bootloader.Stage3.Stops.{VersionFailed, floppy_init_stops}
use toy_bootloader.Loaders.Defs.{Part, run_inits, load_protected}
use toy_bootloader.Loaders.Table.{disk_entries}
use toy_bootloader.Loaders.Disk.{disk_entries_lem}
use toy_bootloader.Tests.World.{machine, floppy_props, no_result}
use toy_bootloader.Tests.Copy.{
  pattern_disk, status_of, drive_env, drive_from, good-IsDrive, good-Starts, empty_result,
  machine-IsReady,
}

abbrev unset_channel : Channel
unset_channel = record { high = true; addr = 7; count = 7; page = 7; masked = true; mode = 7 }

abbrev protected_part : Part
protected_part = record { first_section_index = 60; start = 0x7000; size = 700 }

abbrev stage_4 : Part
stage_4 = record { first_section_index = 35; start = 0x8000; size = 600 }

abbrev stage_5 : Part
stage_5 = record { first_section_index = 40; start = 0x10000; size = 5000 }

disk_entries_lem_example :
    let env = drive_from unset_channel in
    (m1 m2 : Machine) × (run_inits env 5 10
        (disk_entries env 2 no_result empty_result protected_part)
        machine
      ≡ some (tt, m1))
    × (is_programmed (channel2 unset_channel m1.trace) ≡ true)
    × (load_protected env 2 no_result empty_result stage_4 stage_5 0x20000 0x21000 m1
        ≡ some (tt, m2))
    × (m2.mem 0x7203 ≡ pattern_disk 1 1 8 3)
unfolding chs_of_lba phase
disk_entries_lem_example =
    disk_entries_lem (drive_from unset_channel) 2 2 pattern_disk (good-IsDrive unset_channel)
      (omega arith) (omega arith)
      (record { heads = omega arith; sectors = omega arith; track = omega arith }) no_result
      empty_result (good-Starts unset_channel) 5 10 protected_part stage_4 stage_5 0x20000 0x21000
      machine 0x7203 (omega arith) (omega arith) (omega arith) refl refl refl

-- The version is right, and ST0 says that the command has ended abnormally.
abbrev bad_answer : Phase → ℕ
bad_answer (command bs) = 0
bad_answer (result bs n) = if n == 1 then 0x90 else 0x40

abbrev broken_env : Env
broken_env = record drive_env {
  read = λ t p.
      if p == fpy_msr
      then status_of (phase t)
      else if p == fpy_fifo
      then bad_answer (phase t)
      else 0;
}

mrq_shown : (f : Phase) → test_bit (u8 (status_of f)) 7 ≡ true
unfolding test_bit
mrq_shown (command bs) = refl
mrq_shown (result bs n) = refl

broken-RingsAfterRead : RingsAfterRead broken_env 2
broken-RingsAfterRead t p h = (0, omega arith, ((λ j lt. absurd (omega arith)), refl))

broken-Shows : Shows broken_env 2
unfolding polled test_bit
broken-Shows = record {
  answers = λ t. (0, omega arith, ((λ j lt. absurd (omega arith)), mrq_shown (phase t)));
  accepts = λ t h. mrq_shown (phase t);
  listens = λ t h. ap (λ f. test_bit (u8 (status_of f)) 6) h;
  offers = λ t b n h. ap (λ f. test_bit (u8 (status_of f)) 6) h;
}

fpy_cmd_read_sector_blocks_example :
    let p = read_params floppy_props (chs_of_lba floppy_props 35) in
    (r : ReadtrackRes) × (m' : Machine) × (fpy_cmd_read_sector broken_env 2 no_result p empty_result
        machine
      ≡ some (r, m'))
    × (((r.error ≡ none) × IsReady m')
        ⊎ ((x : Error) × (r.error ≡ some x) × Refused broken_env 2 m'))
unfolding read_params chs_of_lba read_block drive_head
fpy_cmd_read_sector_blocks_example =
    fpy_cmd_read_sector_blocks broken_env 2 2 broken-Shows broken-RingsAfterRead (omega arith)
      (omega arith) no_result (read_params floppy_props (chs_of_lba floppy_props 35)) empty_result
      machine (record { bytes = omega arith; whole = refl }) machine-IsReady

abbrev written : Command
written =
    Command.write_sector
      (record {
        drive = 1;
        double_density = true;
        multitrack = false;
        head_number = 1;
        cylinder = 3;
        head = 1;
        sector = 5;
        sector_size = 2;
        track_length = 18;
        length_of_gap3 = 27;
        data_length = 255;
      })
      empty_result

broken-Rings : Rings broken_env 2
broken-Rings t ws v h w = (0, omega arith, ((λ j lt. absurd (omega arith)), refl))

floppy_init_stops_example :
    let set_up : List ℕ = 0x10 ∷ 0x03 ∷ 0x85 ∷ 0x0A ∷ 0x13 ∷ 0 ∷ 0x50 ∷ 0 ∷ [] in
    let first : List ℕ = set_up ++ (0x07 ∷ 0 ∷ 0x08 ∷ []) in
    let second : List ℕ = first ++ (0x07 ∷ 4 ∷ 0x08 ∷ []) in
    (m' : Machine) × (floppy_init broken_env 2 no_result empty_result machine ≡ some (tt, m'))
    × ((IsReady m' × (fifo_writes m'.trace ≡ second))
        ⊎ ((VersionFailed broken_env machine m'
              × (phase m'.trace ≡ command [])
              × (fifo_writes m'.trace ≡ 0x10 ∷ []))
            ⊎ (Refused broken_env 2 m'
                × ((SenseFailed broken_env 2 no_result 0 109 set_up m'
                      × (fifo_writes m'.trace ≡ first))
                    ⊎ (SenseFailed broken_env 2 no_result 1 114 first m'
                        × (fifo_writes m'.trace ≡ second))))))
unfolding drive_head phase
floppy_init_stops_example =
    floppy_init_stops broken_env 2 2 broken-Shows broken-Rings (omega arith) (omega arith) no_result
      empty_result machine refl refl
