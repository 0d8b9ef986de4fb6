-- ===== src/Tests/Start.antt =====
-- The first stage and stage 2 on a BIOS that opens the line 20 and describes a disk.
use toy_bootloader.Common.{◌≡◌, some, arith, inr, [], false}
use toy_bootloader.Real.{RealTrace, Bios, RealMachine}
use toy_bootloader.Boot.Init.{LinkerVariables, init}
use toy_bootloader.Boot.InitLaws.{Attempts, regs_for}
use toy_bootloader.Boot.Tasks.{DoesAll}
use toy_bootloader.Boot.Whole.{init_whole}
use toy_bootloader.Stage2.LoadLaws.{shared}
use toy_bootloader.Stage2.Memory.{MemSec}
use toy_bootloader.Stage2.Table.{stage2_entries}
use toy_bootloader.Tests.World.{bios, real_machine}

-- Every call ends with AX 1, and with 18 sectors and 2 heads where these are asked for.
abbrev helpful : Bios
helpful = record bios {
  bios = λ t. record { regs = record { ax = 1; bx = 4; cx = 0x4F12; dx = 0x0101 }; carry = false };
  do_cpuid = λ t. record { ax = 0x80000008; bx = 0x03000800; cx = 0x21; dx = 0x20000000 };
}

abbrev no_memory : RealTrace → MemSec
no_memory t = record { base = 0; length = 0; type = 0; acpi3 = 0 }

abbrev floppy_image : LinkerVariables
floppy_image = record {
  content_start = 0x8000;
  stage_2_first_section_index = 3;
  stage_2_load_count = 20;
  stage_3_first_section_index = 23;
  stage_3_load_count = 40;
  shared_start = 0x7E00;
  shared_first_section_index = 1;
  shared_load_count = 2;
}

init_whole_example :
    let p = real_machine.props in
    (t1 t2 t3 : RealTrace) × (m2 : RealMachine) × (init helpful floppy_image
        (stage2_entries helpful 5 no_memory)
        real_machine
      ≡ some (tt, record m2 { trace = t3 }))
    × Attempts helpful p (regs_for p 1 2 0x7E00) [] t1
    × Attempts helpful p (regs_for p 3 20 0x8000) t1 t2
    × Attempts helpful m2.props (regs_for m2.props 23 40 0x8000) m2.trace t3
    × DoesAll helpful (shared real_machine) (shared m2)
init_whole_example =
    init_whole helpful 5 no_memory (λ m. omega arith) (λ t h. omega arith) floppy_image real_machine
      (inr (omega arith))
