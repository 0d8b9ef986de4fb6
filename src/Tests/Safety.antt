-- ===== src/Tests/Safety.antt =====
-- A copy, a command and the loading of the later stages: what they write, at concrete values.
use toy_bootloader.Common.{
  ℕ, ◌≡◌, refl, false, none, some, [], ◌∷◌, arith, ◌&&◌, ◌||◌, leb, ltb, test_bit, ◌+◌, ◌*◌, ◌<◌,
  ◌⊎◌, true, u8,
}
use toy_bootloader.Machine.{inb, outb, Machine, do_inb, do_outb, Frame, Env, bad_msr_values}
use toy_bootloader.Dma.Chip.{channel, channel2}
use toy_bootloader.Floppy.Status.{fpy_read_status, msr_of_byte}
use toy_bootloader.Floppy.Fifo.{
  fpy_read_data, read_data_loop, fpy_send_command_byte, send_byte_loop, fpy_send_command,
}
use toy_bootloader.Floppy.Commands.{fpy_cmd_check_version, fpy_cmd_seek_head}
use toy_bootloader.Floppy.Read.{fpy_copy_bytes, chs_of_lba, load_sector, copy_loop}
use toy_bootloader.Floppy.Controller.{Phase, command, result, phase, in_buffer}
use toy_bootloader.Floppy.Frames.{IsFpy}
use toy_bootloader.Floppy.Reading.{IsReady}
use toy_bootloader.Floppy.Copying.{fpy_copy_bytes_lem}
use toy_bootloader.Floppy.Safety.{check_version, perform, commands_safe}
use toy_bootloader.Floppy.Stopping.{Rounds, fpy_copy_bytes_stops}
use toy_bootloader.Floppy.CopySafety.{fpy_copy_bytes_safe}
use toy_bootloader.Loaders.Defs.{Part, load_protected}
use toy_bootloader.Loaders.Protected.{load_protected_lem}
use toy_bootloader.Tests.World.{env, machine, no_result}
use toy_bootloader.Tests.Copy.{
  pattern_disk, set_channel, transfer_of, drive_env, good-IsDrive, empty_result, machine-IsReady,
}

-- The copy of 600 bytes from the drive in good order.
abbrev copied :
    (m' : Machine) × (fpy_copy_bytes drive_env 2 no_result empty_result 35 0x8000 600 machine
      ≡ some (none, m'))
    × IsReady m'
    × (channel2 set_channel m'.trace ≡ set_channel)
    × (m'.mem 0x8203 ≡ pattern_disk 1 0 1 3)
unfolding chs_of_lba channel
copied =
    fpy_copy_bytes_lem drive_env 2 2 pattern_disk (good-IsDrive set_channel) (omega arith)
      (omega arith) (record { heads = omega arith; sectors = omega arith; track = omega arith })
      no_result empty_result 35 0x8000 600 machine 0x8203 (omega arith) machine-IsReady refl refl

transfer_within :
    (f : Phase) (mem : ℕ → ℕ) (j : ℕ) → in_buffer j ≡ false → transfer_of f mem j ≡ mem j
transfer_within (command bs) mem j h = refl
transfer_within (result [] n) mem j h = refl
transfer_within (result (a ∷ []) n) mem j h = refl
transfer_within (result (a ∷ b ∷ []) n) mem j h = refl
transfer_within (result (a ∷ b ∷ c ∷ []) n) mem j h = refl
transfer_within (result (a ∷ b ∷ c ∷ d ∷ []) n) mem j h = refl
transfer_within (result (a ∷ b ∷ c ∷ d ∷ e ∷ bs) n) mem j h = ground (arith, h)

fpy_copy_bytes_safe_example :
    Frame IsFpy (λ j. in_buffer j || (leb 0x8000 j && ltb j 0x8258)) machine copied.0
fpy_copy_bytes_safe_example =
    fpy_copy_bytes_safe drive_env 2 no_result empty_result 35 0x8000 600 machine copied.0 none
      (λ t mem j out. ground (arith, transfer_within (phase t) mem j out)) copied.1

-- The controller of the test answers 0, so this ends in the error of the version.
abbrev asked : Machine
asked = record machine {
  trace = inb 0x3F5 0 ∷ inb 0x3F4 0x80 ∷ outb 0x3F5 0x10 ∷ inb 0x3F4 0x80 ∷ [];
}

asked_run : perform env 3 no_result check_version machine ≡ some (tt, asked)
unfolding fpy_cmd_check_version fpy_send_command_byte send_byte_loop fpy_read_data read_data_loop
    fpy_read_status do_inb do_outb test_bit
asked_run = refl

commands_safe_example : Frame IsFpy (λ j. false) machine asked
commands_safe_example =
    commands_safe env 3 no_result (λ j. false) (λ t mem j out. refl) check_version machine asked
      asked_run

abbrev stage_4 : Part
stage_4 = record { first_section_index = 35; start = 0x8000; size = 600 }

abbrev stage_5 : Part
stage_5 = record { first_section_index = 40; start = 0x10000; size = 5000 }

load_protected_lem_example :
    (m' : Machine) × (load_protected drive_env 2 no_result empty_result stage_4 stage_5 0x20000
        0x21000 machine
      ≡ some (tt, m'))
    × (m'.mem 0x10407 ≡ pattern_disk 1 0 7 7)
unfolding chs_of_lba phase channel
load_protected_lem_example =
    load_protected_lem drive_env 2 2 pattern_disk (good-IsDrive set_channel) (omega arith)
      (omega arith) (record { heads = omega arith; sectors = omega arith; track = omega arith })
      no_result empty_result stage_4 stage_5 0x20000 0x21000 machine 0x10407 (omega arith)
      (omega arith) refl refl refl

-- A controller that always wants to be read refuses the first command.
abbrev refusing : Env
refusing = record env { read = λ t p. 0xC0 }

abbrev refused : Machine
refused = record machine { trace = inb 0x3F4 0xC0 ∷ [] }

refused_run :
    fpy_copy_bytes refusing 3 no_result empty_result 35 0x8000 600 machine
    ≡ some (some bad_msr_values, refused)
unfolding fpy_copy_bytes copy_loop load_sector fpy_cmd_seek_head fpy_send_command fpy_read_status
    msr_of_byte do_inb test_bit
refused_run = refl

fpy_copy_bytes_stops_example :
    (n : ℕ) × (m1 : Machine) × (n * 0x200 < 600)
    × Rounds refusing 3 no_result empty_result n 35 0x8000 machine m1
    × (load_sector refusing 3 no_result empty_result (u8 (35 + n)) m1
        ≡ some (some bad_msr_values, refused))
    × (((in_buffer 0x8000 || (leb 0x8000 0x8000 && ltb 0x8000 (0x8000 + n * 0x200))) ≡ true)
        ⊎ (refused.mem 0x8000 ≡ machine.mem 0x8000))
fpy_copy_bytes_stops_example =
    fpy_copy_bytes_stops refusing 3 no_result empty_result (λ t mem j out. refl) 35 0x8000 600
      machine refused bad_msr_values 0x8000 refused_run
