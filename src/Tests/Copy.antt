-- ===== src/Tests/Copy.antt =====
-- A drive in good order, and a copy from it.
use toy_bootloader.Common.{
  ℕ, false, ◌+◌, ◌-◌, ◌*◌, ◌%◌, ◌≡◌, refl, ap, true, none, some, [], ◌∷◌, arith, ◌==◌,
  if◌then◌else◌, test_bit, u8,
}
use toy_bootloader.Machine.{Env, Machine}
use toy_bootloader.Dma.Chip.{Channel, channel, channel2, is_programmed}
use toy_bootloader.Floppy.Types.{ReadtrackRes}
use toy_bootloader.Floppy.Status.{fpy_msr, fpy_fifo, fpy_check_st0, fpy_check_st1, fpy_check_st2}
use toy_bootloader.Floppy.Block.{read_block, drive_head}
use toy_bootloader.Floppy.Polling.{polled, fifo_writes}
use toy_bootloader.Floppy.Sensing.{Starts}
use toy_bootloader.Stage3.Drive.{floppy_init}
use toy_bootloader.Stage3.Start.{floppy_init_lem}
use toy_bootloader.Floppy.Read.{fpy_copy_bytes, chs_of_lba}
use toy_bootloader.Floppy.Controller.{Phase, command, result, phase, in_sector, in_buffer, IsDrive}
use toy_bootloader.Floppy.Reading.{IsReady}
use toy_bootloader.Floppy.Copying.{fpy_copy_bytes_lem}
use toy_bootloader.Tests.World.{machine, floppy_props, no_result}

-- The contents: a byte for each place.
abbrev pub pattern_disk : ℕ → ℕ → ℕ → ℕ → ℕ
pattern_disk c h s i = (c * 7 + h * 5 + s * 3 + i) % 256

abbrev pub status_of : Phase → ℕ
status_of (command bs) = 0x80
status_of (result bs n) = 0xC0

abbrev pub transfer_of : Phase → (ℕ → ℕ) → ℕ → ℕ
transfer_of (result (b0 ∷ b1 ∷ c ∷ h ∷ s ∷ bs) n) mem j =
    if in_sector j then pattern_disk c h s (j - 0x1000) else if in_buffer j then 0 else mem j
transfer_of f mem j = mem j

-- A result of 0x90 where one is left, the version; no error elsewhere.
abbrev answer_of : Phase → ℕ
answer_of (command bs) = 0
answer_of (result bs n) = if n == 1 then 0x90 else 0

-- The channel, programmed.
abbrev pub set_channel : Channel
set_channel = record {
  high = false;
  addr = 0x1000;
  count = 0x2FF;
  page = 0;
  masked = false;
  mode = 0x15;
}

abbrev pub drive_from : Channel → Env
drive_from initial = record {
  read = λ t p.
      if p == fpy_msr
      then status_of (phase t)
      else if p == fpy_fifo
      then answer_of (phase t)
      else 0;
  irq = λ t. true;
  dma =
      λ t mem j. if is_programmed (channel2 initial t) then transfer_of (phase t) mem j else mem j;
  format = λ s args. [];
  props = floppy_props;
}

abbrev pub drive_env : Env
drive_env = drive_from set_channel

mrq_set : (f : Phase) → test_bit (u8 (status_of f)) 7 ≡ true
unfolding test_bit
mrq_set (command bs) = refl
mrq_set (result bs n) = refl

pub good-IsDrive : (initial : Channel) → IsDrive (drive_from initial) initial 2 pattern_disk
unfolding polled read_block test_bit fpy_check_st0 fpy_check_st1 fpy_check_st2
good-IsDrive initial = record {
  answers = λ t. (0, omega arith, ((λ j lt. absurd (omega arith)), mrq_set (phase t)));
  accepts = λ t h. mrq_set (phase t);
  listens = λ t h. ap (λ f. test_bit (u8 (status_of f)) 6) h;
  raises = λ t p h. (0, omega arith, ((λ j lt. absurd (omega arith)), refl));
  transfers = λ t p mem j h set e. ground (arith, set, ap (λ f. transfer_of f mem j) h, e);
  keeps = λ t p mem j h set e. ground (arith, set, ap (λ f. transfer_of f mem j) h, e);
  st0 = λ t b h. ap (λ f. fpy_check_st0 (u8 (answer_of f))) h;
  st1 = λ t b h. ap (λ f. fpy_check_st1 (u8 (answer_of f))) h;
  st2 = λ t b h. ap (λ f. fpy_check_st2 (u8 (answer_of f))) h;
}

pub good-Starts : (initial : Channel) → Starts (drive_from initial) 2
unfolding fpy_check_st0 test_bit
good-Starts initial = record {
  version = λ t h. ap (λ f. u8 (answer_of f)) h;
  raises = λ t ws v h w. (0, omega arith, ((λ j lt. absurd (omega arith)), refl));
  senses = λ t h. ap (λ f. fpy_check_st0 (u8 (answer_of f))) h;
}

abbrev pub empty_result : ReadtrackRes
empty_result = record {
  error = none;
  st0 = 0;
  st1 = 0;
  st2 = 0;
  cylinder = 0;
  head = 0;
  sector = 0;
  sector_size = 0;
}

pub machine-IsReady : IsReady machine
unfolding phase
machine-IsReady = record { received = refl; handler = refl; start = refl }

fpy_copy_bytes_lem_example :
    (m' : Machine) × (fpy_copy_bytes drive_env 2 no_result empty_result 35 0x8000 600 machine
      ≡ some (none, m'))
    × IsReady m'
    × (channel2 set_channel m'.trace ≡ set_channel)
    × (m'.mem 0x8203 ≡ pattern_disk 1 0 1 3)
unfolding chs_of_lba channel
fpy_copy_bytes_lem_example =
    fpy_copy_bytes_lem drive_env 2 2 pattern_disk (good-IsDrive set_channel) (omega arith)
      (omega arith) (record { heads = omega arith; sectors = omega arith; track = omega arith })
      no_result empty_result 35 0x8000 600 machine 0x8203 (omega arith) machine-IsReady refl refl

floppy_init_lem_example :
    (m' : Machine) × (floppy_init drive_env 2 no_result empty_result machine ≡ some (tt, m'))
    × IsReady m'
    × (m'.fpy_irq_handle_state ≡ 0)
    × (fifo_writes m'.trace
        ≡ 0x10 ∷ 0x03 ∷ 0x85 ∷ 0x0A ∷ 0x13 ∷ 0 ∷ 0x50 ∷ 0 ∷ 0x07 ∷ 0 ∷ 0x08 ∷ 0x07 ∷ 4 ∷ 0x08 ∷ [])
unfolding drive_head phase
floppy_init_lem_example =
    floppy_init_lem drive_env 2 2 pattern_disk (good-IsDrive set_channel) (good-Starts set_channel)
      (omega arith) (omega arith) no_result empty_result machine refl refl
