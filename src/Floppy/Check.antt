-- ===== src/Floppy/Check.antt =====
-- What the checks of the status bytes and the motor bits mean, in arithmetic on the byte.
use toy_bootloader.Common.{
  ℕ, zero, suc, ◌/◌, ◌%◌, ◌^◌, ◌<◌, ◌≡◌, ◌↔◌, refl, none, some, bit_and, arith, same_below,
  same_below_sound, test_bit_lem, if◌then◌else◌, ◌==◌,
}
use toy_bootloader.Machine.{
  abnormal_termination, invalid_command, polling_termination, expected_false,
}
use toy_bootloader.Floppy.Status.{
  fpy_check_st0, fpy_check_st1, fpy_check_st2, fpy_check_st3, motor_bits,
}

abbrev pub IsClear : ℕ → ℕ → Type 0
IsClear v b = v / 2 ^ b % 2 ≡ 0

abbrev pub IsRaised : ℕ → ℕ → Type 0
IsRaised v b = v / 2 ^ b % 2 ≡ 1

ic_field : (v : ℕ) → v < 256 → bit_and v 0xC0 / 2 ^ 6 ≡ v / 64
unfolding same_below
ic_field v h = same_below_sound (λ v. bit_and v 0xC0 / 2 ^ 6) (λ v. v / 64) 256 refl v h

-- A set "not ready" fails the check of status byte 0; otherwise its two top bits, the interrupt
-- code, decide: 0 passes, and each other code has its own error.
pub fpy_check_st0_lem :
    (v : ℕ)
    → v < 256
    → fpy_check_st0 v ≡ (
        if v / 8 % 2 == 1
        then some (expected_false "st0" 3 "NR")
        else if v / 64 == 0
        then none
        else if v / 64 == 1
        then some abnormal_termination
        else if v / 64 == 2
        then some invalid_command
        else some polling_termination)
unfolding fpy_check_st0
fpy_check_st0_lem v h = ground (arith, ic_field v h, test_bit_lem v 3)

-- Status bytes 1, 2 and 3 pass exactly if the error bits that the controller's manual gives are
-- clear and, for status byte 3, the drive is ready.
pub fpy_check_rest :
    (v : ℕ)
    → ((fpy_check_st1 v ≡ none)
        ↔ (IsClear v 5 × IsClear v 4 × IsClear v 2 × IsClear v 1 × IsClear v 0))
      × ((fpy_check_st2 v ≡ none) ↔ (IsClear v 5 × IsClear v 4 × IsClear v 1 × IsClear v 0))
      × ((fpy_check_st3 v ≡ none) ↔ (IsClear v 7 × IsRaised v 5 × IsClear v 1))
unfolding fpy_check_st1 fpy_check_st2 fpy_check_st3
fpy_check_rest v = (
  ground (
    arith,
    test_bit_lem v 5,
    test_bit_lem v 4,
    test_bit_lem v 2,
    test_bit_lem v 1,
    test_bit_lem v 0,
  ),
  ground (arith, test_bit_lem v 5, test_bit_lem v 4, test_bit_lem v 1, test_bit_lem v 0),
  ground (arith, test_bit_lem v 7, test_bit_lem v 5, test_bit_lem v 1),
)

-- For each of the four drives the byte that `fpy_motor_enable` writes selects that drive, leaves the
-- reset, turns DMA on, and runs the motor of that drive alone.
pub motor_bits_lem :
    (d : ℕ)
    → d < 4
    → (motor_bits d % 4 ≡ d)
      × IsRaised (motor_bits d) 2
      × IsRaised (motor_bits d) 3
      × (motor_bits d / 16 ≡ 2 ^ d)
      × (motor_bits d < 256)
unfolding motor_bits
motor_bits_lem zero h = (refl, refl, refl, refl, omega arith)
motor_bits_lem (suc zero) h = (refl, refl, refl, refl, omega arith)
motor_bits_lem (suc (suc zero)) h = (refl, refl, refl, refl, omega arith)
motor_bits_lem (suc (suc (suc zero))) h = (refl, refl, refl, refl, omega arith)
motor_bits_lem (suc (suc (suc (suc d)))) h = absurd (omega arith)
