-- ===== src/Tests/Disk.antt =====
-- The disk at concrete values: its geometry, stage 1, the queries of stage 2, the command blocks and
-- the results.
use toy_bootloader.Common.{
  suc, ℕ, ◌+◌, ◌-◌, ◌*◌, ◌<◌, ◌≤◌, ◌≡◌, ◌⊎◌, refl, true, false, none, some, [], ◌∷◌, inr, arith,
  test_bit,
}
use toy_bootloader.Machine.{Trace, inb, Error, ErrT, Env, failed, bad_msr_values, Machine, do_inb}
use toy_bootloader.Floppy.Types.{HeadParam, ReadtrackRes, ReadSectorIdRes}
use toy_bootloader.Floppy.Status.{fpy_check_st0, fpy_check_st1, fpy_check_st2, fpy_read_status}
use toy_bootloader.Floppy.Fifo.{fpy_send_command}
use toy_bootloader.Floppy.Block.{head_block, drive_head}
use toy_bootloader.Floppy.Commands.{is_error, fpy_cmd_gen_res, fpy_cmd_read_sector_id}
use toy_bootloader.Floppy.Irq.{fpy_wait_irq}
use toy_bootloader.Floppy.Polling.{fifo_writes}
use toy_bootloader.Floppy.Results.{fpy_cmd_gen_res_lem}
use toy_bootloader.Floppy.SectorId.{Reversed, fpy_cmd_read_sector_id_lem}
use toy_bootloader.Floppy.Read.{chs_of_lba}
use toy_bootloader.Floppy.Chs.{chs_of_lba_lem}
use toy_bootloader.Real.{RealMachine}
use toy_bootloader.Boot.Copy.{start_of, read_regs, copy_kernel}
use toy_bootloader.Boot.Retries.{
  block_of, after, good, Fails, read_regs-block_of, copy_kernel_tries,
}
use toy_bootloader.Stage2.Queries.{disk_props}
use toy_bootloader.Stage2.QueryLaws.{disk_props_lem}
use toy_bootloader.Tests.World.{env, machine, floppy_props, no_result, bios, real_machine}

chs_of_lba_lem_example :
    let a = chs_of_lba floppy_props 37 in
    ((a.c * 2 + a.h) * 18 + (a.s - 1) ≡ 37) × (a.h < 2) × (1 ≤ a.s) × (a.s ≤ 18)
chs_of_lba_lem_example = chs_of_lba_lem floppy_props 37 (omega arith) (omega arith)

read_regs-block_of_example :
    block_of floppy_props (read_regs floppy_props (start_of floppy_props 37) 5 0x8000) ≡ 37
read_regs-block_of_example =
    read_regs-block_of floppy_props 37 5 0x8000 (omega arith) (omega arith) (omega arith)
      (omega arith) (omega arith) (omega arith)

copy_kernel_tries_example :
    let p = floppy_props in
    let r = read_regs p (start_of p 37) 5 0x8000 in
    (k : ℕ) × (k ≤ 2)
    × (copy_kernel bios 37 5 0x8000 real_machine
        ≡ some (tt, record real_machine { trace = after p r (suc k) [] }))
    × Fails bios p r k []
    × ((good bios p r (after p r k []) ≡ true) ⊎ (k ≡ 2))
copy_kernel_tries_example = copy_kernel_tries bios 37 5 0x8000 real_machine (inr (omega arith))

disk_props_lem_example :
    (m' : RealMachine) × (disk_props bios real_machine ≡ some (tt, m'))
    × (m'.props ≡ record floppy_props {
      drive_types = 0;
      cylinder_number = 0;
      max_sector_number = 0;
      max_head_number = 1;
      number_of_drives = 0;
    })
    × (m'.cpu ≡ real_machine.cpu)
    × (m'.segments ≡ real_machine.segments)
disk_props_lem_example = disk_props_lem bios real_machine

abbrev no_track : ReadtrackRes
no_track = record {
  error = none;
  st0 = 0;
  st1 = 0;
  st2 = 0;
  cylinder = 0;
  head = 0;
  sector = 0;
  sector_size = 0;
}

fpy_cmd_gen_res_lem_example :
    (r : ReadtrackRes) × (t : Trace) × (fpy_cmd_gen_res env no_track machine
      ≡ some (r, record machine { trace = t }))
    × (fifo_writes t ≡ [])
    × (((r.error ≡ none)
          × (fpy_check_st0 r.st0 ≡ none)
          × (fpy_check_st1 r.st1 ≡ none)
          × (fpy_check_st2 r.st2 ≡ none))
        ⊎ ((x : Error) × (r.error ≡ some x)
            × ((fpy_check_st0 r.st0 ≡ some x)
                ⊎ (((fpy_check_st0 r.st0 ≡ none) × (fpy_check_st1 r.st1 ≡ some x))
                    ⊎ ((fpy_check_st0 r.st0 ≡ none)
                        × (fpy_check_st1 r.st1 ≡ none)
                        × (fpy_check_st2 r.st2 ≡ some x))))))
fpy_cmd_gen_res_lem_example = fpy_cmd_gen_res_lem env no_track machine

abbrev drive_one : HeadParam
drive_one = record { drive = 1; head_number = 0 }

abbrev no_id : ReadSectorIdRes
no_id = record {
  succcess = true;
  st0 = 9;
  st1 = 9;
  st2 = 9;
  cylinder = 9;
  head = 9;
  sector = 9;
  sector_size = 9;
}

-- A controller that always has a byte to read, and that byte is a bad status.
abbrev full_env : Env
full_env = record env { read = λ t p. 0xC0 }

abbrev failed_machine : Machine
failed_machine = record machine { fpy_irq_received = failed bad_msr_values }

abbrev asked : Machine
asked = record failed_machine { trace = inb 0x3F4 0xC0 ∷ [] }

asked_run :
    fpy_send_command full_env 3 (head_block 0xa drive_one) false failed_machine
    ≡ some (some bad_msr_values, asked)
unfolding fpy_send_command fpy_read_status do_inb test_bit head_block drive_head
asked_run = refl

fpy_cmd_read_sector_id_lem_example :
    let run = fpy_cmd_read_sector_id full_env 3 no_result drive_one no_id in
    let e : ErrT = some bad_msr_values in
    ((e ≡ none) × (run failed_machine ≡ some (record no_id { succcess = false }, asked)))
    ⊎ ((is_error e ≡ true)
        × (((fpy_wait_irq full_env 3 no_result asked ≡ none) × (run failed_machine ≡ none))
            ⊎ ((e1 : ErrT) × (m2 : Machine) × (fpy_wait_irq full_env 3 no_result asked
                  ≡ some (e1, m2))
                × (r : ReadSectorIdRes) × (m' : Machine) × (run failed_machine ≡ some (r, m'))
                × (fifo_writes m'.trace ≡ fifo_writes m2.trace)
                × Reversed e1 r)))
fpy_cmd_read_sector_id_lem_example =
    fpy_cmd_read_sector_id_lem full_env 3 no_result drive_one no_id failed_machine asked
      (some bad_msr_values) asked_run
