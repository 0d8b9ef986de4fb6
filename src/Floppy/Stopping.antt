-- ===== src/Floppy/Stopping.antt =====
-- How `fpy_copy_bytes` ends with an error, on any controller.
use toy_bootloader.Common.{
  ℕ, zero, suc, ◌+◌, ◌-◌, ◌*◌, ◌/◌, ◌<◌, ◌≡◌, refl, ◌∙◌, true, false, ◌||◌, ◌&&◌, ◌⊎◌, none, some,
  arith, inl, inr, u8, ltb, leb, Bool-cases,
}
use toy_bootloader.Machine.{Error, ErrT, Env, Machine, >>!-eq-some}
use toy_bootloader.Floppy.Types.{CheckInterruptRes, ReadtrackRes}
use toy_bootloader.Floppy.Read.{copy_buffer, load_sector, copy_loop, fpy_copy_bytes}
use toy_bootloader.Floppy.Controller.{in_buffer}
use toy_bootloader.Floppy.Frames.{DmaWithin}
use toy_bootloader.Floppy.CopySafety.{copy_buffer_outside, load_sector-Safe}

module _ (env : Env) (fuel : ℕ) (r : CheckInterruptRes) (uninit : ReadtrackRes) where
  -- `n` rounds from `sector` on, each with a whole sector that is read without an error and copied.
  pub data Rounds : ℕ → ℕ → ℕ → Machine → Machine → Type 0 where
    done : (sector dest : ℕ) (m : Machine) → Rounds 0 sector dest m m
    round :
        (n sector dest : ℕ) (m m1 m' : Machine)
        → load_sector env fuel r uninit sector m ≡ some (none, m1)
        → Rounds n
            (u8 (sector + 1))
            (dest + 0x200)
            (record m1 { mem = copy_buffer 0x200 0 dest m1.mem })
            m'
        → Rounds (suc n) sector dest m m'

  copy_loop_zero :
      (rounds sector dest : ℕ) (m : Machine)
      → copy_loop env fuel r uninit rounds sector dest 0 m ≡ some (none, m)
  unfolding copy_loop
  copy_loop_zero zero sector dest m = refl
  copy_loop_zero (suc rounds) sector dest m = refl

  copy_loop_stops :
      (rounds sector dest count : ℕ) (m m' : Machine) (x : Error)
      → copy_loop env fuel r uninit rounds sector dest count m ≡ some (some x, m')
      → sector < 256
      → (n : ℕ) × (m1 : Machine) × (n * 0x200 < count)
        × Rounds n sector dest m m1
        × (load_sector env fuel r uninit (u8 (sector + n)) m1 ≡ some (some x, m'))
  unfolding copy_loop
  copy_loop_stops zero sector dest zero m m' x h byte = cc
  copy_loop_stops zero sector dest (suc k) m m' x h byte = cc
  copy_loop_stops (suc rounds) sector dest zero m m' x h byte = cc
  copy_loop_stops (suc rounds) sector dest (suc k) m m' x h byte =
      elim (>>!-eq-some (load_sector env fuel r uninit sector) _ m h) [
        | inl (y, run, same) ↦
            let e : u8 (sector + 0) ≡ sector = omega arith in
            (0, m, omega arith, done sector dest m, rw (e, same) run)
        | inr (m1, run, more) ↦ elim (Bool-cases (ltb 0x200 (suc k))) [
          | inl long ↦
              let m2 = record m1 { mem = copy_buffer 0x200 0 dest m1.mem } in
              let (n, m3, lt, rounds', last) =
                copy_loop_stops rounds (u8 (sector + 1)) (dest + 0x200) (suc k - 0x200) m2 m' x
                  (rw long at more) (omega arith) in
              let e : u8 (u8 (sector + 1) + n) ≡ u8 (sector + suc n) = omega arith in
              (
                suc n,
                m3,
                ground (arith, lt, long),
                round n sector dest m m1 m3 run rounds',
                rw (← e) last,
              )
          | inr short ↦
              let over : suc k - 0x200 ≡ 0 = ground (arith, short) in
              cc (copy_loop_zero rounds (u8 (sector + 1)) (dest + 0x200) _, rw over at more)
        ]
      ]

  module _ (within : DmaWithin env in_buffer) where
    -- A sector that is loaded, with an error or without, changes the transfer buffer alone.
    loaded_elsewhere :
        (sector : ℕ) (m m' : Machine) (e : ErrT) (a : ℕ)
        → load_sector env fuel r uninit sector m ≡ some (e, m')
        → in_buffer a ≡ false
        → m'.mem a ≡ m.mem a
    loaded_elsewhere sector m m' e a run out =
        let f = load_sector-Safe env in_buffer fuel r within uninit sector m e m' run in f.mem a out

    Rounds-elsewhere :
        (n sector dest : ℕ) (m m' : Machine) (a : ℕ)
        → Rounds n sector dest m m'
        → in_buffer a ≡ false
        → (leb dest a && ltb a (dest + n * 0x200)) ≡ false
        → m'.mem a ≡ m.mem a
    Rounds-elsewhere n sector dest m m' a (done _ _ _) out away = refl
    Rounds-elsewhere n sector dest m m' a (round n' _ _ _ m1 _ run rest) out away =
        let mem2 = copy_buffer 0x200 0 dest m1.mem in
        Rounds-elsewhere n' (u8 (sector + 1)) (dest + 0x200) (record m1 { mem = mem2 }) m' a rest
          out (ground (arith, away))
        ∙ copy_buffer_outside 0x200 0 dest m1.mem a (ground (arith, away))
        ∙ loaded_elsewhere sector m m1 none a run out

    -- Whatever the controller does, if its transfers stay within the 768 bytes that the DMA channel is
    -- programmed for and `fpy_copy_bytes` returns an error, then for some number of sectors, all of them
    -- needed, these were read without an error and copied whole, the error is the one of the sector
    -- after them, and nothing was done after it: every byte of memory outside the transfer buffer and
    -- the copied sectors is as before.
    pub fpy_copy_bytes_stops :
        (sector dest count : ℕ) (m m' : Machine) (x : Error) (a : ℕ)
        → fpy_copy_bytes env fuel r uninit sector dest count m ≡ some (some x, m')
        → (n : ℕ) × (m1 : Machine) × (n * 0x200 < count)
          × Rounds n (u8 sector) dest m m1
          × (load_sector env fuel r uninit (u8 (sector + n)) m1 ≡ some (some x, m'))
          × (((in_buffer a || (leb dest a && ltb a (dest + n * 0x200))) ≡ true)
              ⊎ (m'.mem a ≡ m.mem a))
    unfolding fpy_copy_bytes
    fpy_copy_bytes_stops sector dest count m m' x a h =
        let (n, m1, lt, rounds, last) =
          copy_loop_stops (count / 0x200 + 1) (u8 sector) dest count m m' x h (omega arith) in
        let e : u8 (u8 sector + n) ≡ u8 (sector + n) = omega arith in
        let last' = rw e at last in
        (
          n,
          m1,
          lt,
          rounds,
          last',
          elim (Bool-cases (in_buffer a || (leb dest a && ltb a (dest + n * 0x200)))) [
            | inl inside ↦ inl inside
            | inr outside ↦ inr (
                loaded_elsewhere (u8 (sector + n)) m1 m' (some x) a last' (ground (arith, outside))
                ∙ Rounds-elsewhere n (u8 sector) dest m m1 a rounds (ground (arith, outside))
                    (ground (arith, outside)))
          ],
        )
