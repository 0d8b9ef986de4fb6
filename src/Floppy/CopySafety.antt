-- ===== src/Floppy/CopySafety.antt =====
-- Memory safety of `fpy_copy_bytes`, on any controller.
use toy_bootloader.Common.{
  ℕ, zero, suc, ◌+◌, ◌*◌, ◌/◌, ◌-◌, ◌≤◌, ◌<◌, ◌≡◌, refl, Bool, true, false, ◌||◌, ◌&&◌, none, some,
  arith, u8, ltb, leb, ◌==◌, if◌then◌else◌,
}
use toy_bootloader.Machine.{
  ErrT, Env, Machine, update, Adds-refl, Frame, Keeps-goes, Keeps-pure, Keeps-hang, Keeps->>=,
  Keeps->>!, Keeps-if,
}
use toy_bootloader.Floppy.Types.{ReadtrackRes, CheckInterruptRes}
use toy_bootloader.Floppy.Block.{seek_block}
use toy_bootloader.Floppy.Commands.{fpy_cmd_seek_head}
use toy_bootloader.Floppy.Read.{
  transfer_buffer, chs_of_lba, seek_params, read_params, copy_buffer, modify_mem, load_sector,
  copy_loop, fpy_copy_bytes,
}
use toy_bootloader.Floppy.Controller.{in_buffer}
use toy_bootloader.Floppy.Safety.{fpy_cmd_read_sector-Safe}
use toy_bootloader.Floppy.Frames.{IsFpy, DmaWithin, Safe, fpy_send_command-Safe}

pub copy_buffer_outside :
    (n i dest : ℕ) (mem : ℕ → ℕ) (a : ℕ)
    → (leb (dest + i) a && ltb a (dest + i + n)) ≡ false
    → copy_buffer n i dest mem a ≡ mem a
unfolding copy_buffer
copy_buffer_outside zero i dest mem a h = refl
copy_buffer_outside (suc n) i dest mem a h =
    let mem' = update mem (dest + i) (mem (transfer_buffer + i)) in
    let rest = copy_buffer_outside n (i + 1) dest mem' a (ground arith) in ground (arith, rest)

module _ (env : Env) (W : ℕ → Bool) (fuel : ℕ) (r : CheckInterruptRes)
    (within : DmaWithin env W) where
  pub load_sector-Safe :
      (uninit : ReadtrackRes) (sector : ℕ) → Safe env W (load_sector env fuel r uninit sector)
  unfolding load_sector fpy_cmd_seek_head
  load_sector-Safe uninit sector =
      let p = env.props in
      Keeps-if IsFpy W (p.max_head_number * p.max_sector_number == 0) _ _ (Keeps-hang IsFpy W) (
        let a = chs_of_lba p sector in
        Keeps->>! IsFpy W _ _ (fpy_send_command-Safe env W fuel (seek_block (seek_params p a)) true)
          (Keeps->>= IsFpy W _ _
            (fpy_cmd_read_sector-Safe env W fuel r within (read_params p a) uninit)
            (λ (res : ReadtrackRes). Keeps-pure IsFpy W res.error)))

  copy_chunk-Safe :
      (n dest : ℕ)
      → ((j : ℕ) → dest ≤ j → j < dest + n → W j ≡ true)
      → Safe env W (modify_mem (copy_buffer n 0 dest))
  copy_chunk-Safe n dest inside =
      Keeps-goes IsFpy W _ (λ m. tt) (λ m. record m { mem = copy_buffer n 0 dest m.mem })
        (λ m. refl)
        (λ m. record {
          ports = Adds-refl IsFpy m.trace;
          mem = λ j out. copy_buffer_outside n 0 dest m.mem j (ground (arith, inside j, out));
          is_init = refl;
          handlers = refl;
          gates = refl;
          limit = refl;
          timer = refl;
        })

  copy_loop-Safe :
      (uninit : ReadtrackRes) (rounds sector dest count : ℕ)
      → ((j : ℕ) → dest ≤ j → j < dest + count → W j ≡ true)
      → Safe env W (copy_loop env fuel r uninit rounds sector dest count)
  unfolding copy_loop
  copy_loop-Safe uninit zero sector dest zero inside = Keeps-pure IsFpy W none
  copy_loop-Safe uninit zero sector dest (suc k) inside = Keeps-hang IsFpy W
  copy_loop-Safe uninit (suc rounds) sector dest zero inside = Keeps-pure IsFpy W none
  copy_loop-Safe uninit (suc rounds) sector dest (suc k) inside =
      let chunk = if ltb 0x200 (suc k) then 0x200 else suc k in
      let fits : chunk ≤ suc k = ground arith in
      Keeps->>! IsFpy W _ _ (load_sector-Safe uninit sector) (
        Keeps->>= IsFpy W _ _ (copy_chunk-Safe chunk dest (λ j lo hi. inside j lo (omega arith)))
          (λ _.
            copy_loop-Safe uninit rounds (u8 (sector + 1)) (dest + 0x200) (suc k - 0x200)
              (λ j lo hi. inside j (omega arith) (omega arith))))

-- Whatever the controller does, if its transfers stay within the 768 bytes that the DMA channel is
-- programmed for and `fpy_copy_bytes` returns, with an error or without, then it has written to the
-- transfer buffer and to the `count` bytes of the destination alone, has touched no port but the
-- controller's and the interrupt controller's, and has changed no global variable but the two of the
-- handshake with the interrupt handler. This holds for every fuel, sector, destination and count.
pub fpy_copy_bytes_safe :
    (env : Env) (fuel : ℕ) (r : CheckInterruptRes) (uninit : ReadtrackRes) (sector dest count : ℕ)
    (m m' : Machine) (e : ErrT)
    → DmaWithin env in_buffer
    → fpy_copy_bytes env fuel r uninit sector dest count m ≡ some (e, m')
    → Frame IsFpy (λ j. in_buffer j || (leb dest j && ltb j (dest + count))) m m'
unfolding fpy_copy_bytes
fpy_copy_bytes_safe env fuel r uninit sector dest count m m' e within h =
    copy_loop-Safe env (λ j. in_buffer j || (leb dest j && ltb j (dest + count))) fuel r
      (λ t mem j out. within t mem j (ground (arith, out))) uninit (count / 0x200 + 1) (u8 sector)
      dest count (λ j lo hi. ground arith) m e m' h
