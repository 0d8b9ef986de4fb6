-- ===== src/Stage3/Drive.antt =====
-- stage3/floppy.c: the drive is started and calibrated, the DMA channel programmed, and the first
-- sector read twice as a test. The calls of `cmd_error` and `cmd_fail` pass the line as a number.
use toy_bootloader.Common.{ℕ, ◌+◌, ◌*◌, true, false, none, some, [], ◌∷◌, ◌==◌, if◌then◌else◌, u8}
use toy_bootloader.Machine.{Error, ErrT, Env, number, text, message, M, ◌>>=◌, ◌>>◌, hang}
use toy_bootloader.Serial.Defs.{printf}
use toy_bootloader.Dma.Defs.{
  single, increment, init_auto, transfer_read, dma_mask_channel, dma_unmask_channel,
  dma_reset_flipflop, dma_setup_address, dma_setup_count, dma_setup_page, dma_set_mode,
}
use toy_bootloader.Floppy.Types.{HeadParam, ReadSectorParams, CheckInterruptRes, ReadtrackRes}
use toy_bootloader.Floppy.Status.{fpy_write_dsr, fpy_motor_enable}
use toy_bootloader.Floppy.Irq.{fpy_setup_idt, fpy_wait_irq}
use toy_bootloader.Floppy.Commands.{
  fpy_cmd_check_version, fpy_cmd_fix_drive_data, fpy_cmd_configure, fpy_cmd_calibrate_drive,
  fpy_cmd_read_sector,
}
use toy_bootloader.Floppy.Read.{Chs, chs_of_lba}
use Prim.Native.String.{String}

abbrev pub fpy_dma_port : ℕ
fpy_dma_port = 2

module _ (env : Env) where
  unfoldable pub cmd_fail : String → ℕ → M (Unit {0})
  cmd_fail cmd line = printf env "| floppy : error `%s` (l.%u)\n" (text cmd ∷ number line ∷ [])

  unfoldable pub cmd_error : String → ℕ → Error → M (Unit {0})
  cmd_error cmd line err =
      printf env "| floppy : command `%s` failed (l.%u), got error : `%s`\n"
        (text cmd ∷ number line ∷ message err ∷ [])

  -- `LOG(STR)`: the whole line is one format.
  abbrev pub log : String → M (Unit {0})
  log line = printf env line []

  unfoldable pub floppy_dma : M (Unit {0})
  floppy_dma = do
    dma_mask_channel fpy_dma_port
    dma_reset_flipflop fpy_dma_port
    dma_setup_address fpy_dma_port 0x1000
    dma_reset_flipflop fpy_dma_port
    dma_setup_count fpy_dma_port 0x2FF
    dma_setup_page fpy_dma_port 0
    dma_unmask_channel fpy_dma_port
    log "| floppy : dma setup for floppy disk ok\n"

  unfoldable pub floppy_dma_setup_read : M (Unit {0})
  floppy_dma_setup_read = do
    dma_mask_channel fpy_dma_port
    dma_set_mode fpy_dma_port single increment init_auto transfer_read
    dma_unmask_channel fpy_dma_port
    log "| floppy : dma setup for read ok\n"

  -- `if ((err = p)) return CMD_ERROR(name, err);` followed by `k`.
  abbrev pub or_error : M ErrT → String → ℕ → M (Unit {0}) → M (Unit {0})
  or_error p name line k = p >>= λ e. elim e [ some x ↦ cmd_error name line x | none ↦ k ]

  abbrev pub head_params : ℕ → HeadParam
  head_params h = record { drive = env.props.drive_number; head_number = h }

module _ (env : Env) (fuel : ℕ) (r : CheckInterruptRes) (uninit : ReadtrackRes) where
  unfoldable pub floppy_init : M (Unit {0})
  floppy_init = do
    fpy_setup_idt
    or_error env (fpy_cmd_check_version env) "version" 61 do
      log env "| floppy : version ok\n"
      fpy_write_dsr 3
      fpy_motor_enable env
      or_error env
          (fpy_cmd_fix_drive_data env fuel
            (record { step_rate = 8; ndm = false; head_unload_time = 0; head_load_time = 5 }))
          "fix drive data" 76
          do
            log env "| floppy : fix drive data ok\n"
            or_error env
                (fpy_cmd_configure env fuel (record {
                  implied_seek_enable = true;
                  fifo_disable = false;
                  drive_polling_disable = true;
                  treshold_val = 1;
                  precomp_val = 0;
                }))
                "configure" 92
                do
                  log env "| floppy : configure ok\n"
                  log env "| floppy : start calibrate\n"
                  or_error env (fpy_cmd_calibrate_drive env fuel (head_params env 0))
                      "calibrate head" 107
                      (or_error env (fpy_wait_irq env fuel r) "wait_irq" 109 (
                        or_error env (fpy_cmd_calibrate_drive env fuel (head_params env 1))
                          "calibrate head" 112
                          (or_error env (fpy_wait_irq env fuel r) "wait_irq" 114
                            (log env "| floppy : calibrate head ok\n"))))

  abbrev pub test_params : Chs → ReadSectorParams
  test_params a = record {
    multitrack = true;
    double_density = true;
    skip_mode = false;
    drive = env.props.drive_number;
    head_number = u8 a.h;
    cylinder = u8 a.c;
    head = u8 a.h;
    sector = u8 a.s;
    sector_size = 2;
    track_length = 1;
    length_of_gap3 = 0x1b;
    data_length = 0xff;
  }

  unfoldable pub check_signature : M (Unit {0})
  check_signature = do
    floppy_sign ← λ m. some (m.mem 0x11FE + m.mem 0x11FF * 256, m)
    elim (floppy_sign == 0xaa55) [
      | false ↦ cmd_fail env "cannot read floppy disk signature" 150
      | true ↦ log env "| floppy : floppy disk signature check ok\n"
    ]

  unfoldable pub floppy_test : M (Unit {0})
  unfolding chs_of_lba check_signature
  floppy_test =
      let p = env.props in
      if p.max_head_number * p.max_sector_number == 0 then hang else do
        res ← fpy_cmd_read_sector env fuel r (test_params (chs_of_lba p 0)) uninit
        elim res.error [
          | some x ↦ cmd_error env "read_sector" 145 x
          | none ↦ do log env "| floppy : read_sector ok\n"; check_signature
        ]
