-- ===== src/Floppy/Read.antt =====
-- shared/floppy_read.h: the sectors of the disk are read one by one into the transfer buffer and
-- copied from there.
use toy_bootloader.Common.{
  ℕ, zero, suc, ◌+◌, ◌-◌, ◌*◌, ◌/◌, ◌%◌, true, false, none, some, ltb, ◌==◌, if◌then◌else◌, u8,
}
use toy_bootloader.Machine.{ErrT, Env, DiskProps, M, pure, ◌>>=◌, ◌>>◌, ◌>>!◌, hang, update}
use toy_bootloader.Floppy.Types.{CheckInterruptRes, ReadtrackRes, ReadSectorParams, SeekHeadParams}
use toy_bootloader.Floppy.Commands.{fpy_cmd_seek_head, fpy_cmd_read_sector}

abbrev pub transfer_buffer : ℕ
transfer_buffer = 0x1000

-- Cylinder, head and sector of a logical block; sectors count from 1.
pub record Chs : Type 0 where
  pub c : ℕ
  pub h : ℕ
  pub s : ℕ

unfoldable pub chs_of_lba : DiskProps → ℕ → Chs
chs_of_lba p lba = record {
  c = lba / (p.max_head_number * p.max_sector_number);
  h = lba / p.max_sector_number % p.max_head_number;
  s = lba % p.max_sector_number + 1;
}

unfoldable pub seek_params : DiskProps → Chs → SeekHeadParams
seek_params p a = record { drive = p.drive_number; head_number = u8 a.h; cylinder = u8 a.c }

unfoldable pub read_params : DiskProps → Chs → ReadSectorParams
read_params p a = record {
  multitrack = true;
  double_density = true;
  skip_mode = false;
  drive = p.drive_number;
  head_number = u8 a.h;
  cylinder = u8 a.c;
  head = u8 a.h;
  sector = u8 a.s;
  sector_size = 2;
  track_length = p.max_sector_number;
  length_of_gap3 = 0x1b;
  data_length = 0xff;
}

-- `for (i = 0; i < copy_count; i++) dest[i] = TRANSFER_BUFFER[i];` with the rounds that are left.
unfoldable pub copy_buffer : ℕ → ℕ → ℕ → (ℕ → ℕ) → ℕ → ℕ
copy_buffer zero i dest mem = mem
copy_buffer (suc n) i dest mem =
    copy_buffer n (i + 1) dest (update mem (dest + i) (mem (transfer_buffer + i)))

abbrev pub modify_mem : ((ℕ → ℕ) → ℕ → ℕ) → M (Unit {0})
modify_mem f m = some (tt, record m { mem = f m.mem })

module _ (env : Env) (fuel : ℕ) (r : CheckInterruptRes) (uninit : ReadtrackRes) where
  -- One round of the loop up to the copy: seek and read the sector into the buffer.
  unfoldable pub load_sector : ℕ → M ErrT
  unfolding chs_of_lba seek_params read_params
  load_sector sector =
      let p = env.props in
      if p.max_head_number * p.max_sector_number == 0
      then hang
      else let a = chs_of_lba p sector in
        fpy_cmd_seek_head env fuel (seek_params p a)
        >>! do res ← fpy_cmd_read_sector env fuel r (read_params p a) uninit; pure res.error

  -- `count` is a `long`; where the source lets it go below 0 it is 0 here, and the loop ends.
  unfoldable pub copy_loop : ℕ → ℕ → ℕ → ℕ → M ErrT
  copy_loop zero sector dest zero = pure none
  copy_loop zero sector dest (suc count) = hang
  copy_loop (suc rounds) sector dest zero = pure none
  copy_loop (suc rounds) sector dest (suc k) = load_sector sector >>! do
    let count = suc k
    modify_mem (copy_buffer (if ltb 0x200 count then 0x200 else count) 0 dest)
    copy_loop rounds (u8 (sector + 1)) (dest + 0x200) (count - 0x200)

  -- A round takes 512 bytes, so these rounds are enough.
  unfoldable pub fpy_copy_bytes : ℕ → ℕ → ℕ → M ErrT
  fpy_copy_bytes sector dest count = copy_loop (count / 0x200 + 1) (u8 sector) dest count
