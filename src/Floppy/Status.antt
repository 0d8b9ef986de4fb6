-- ===== src/Floppy/Status.antt =====
-- Registers of the controller: the main status register, the motor bits of the digital output
-- register, and the checks of the status bytes st0 to st3 that end a command.
use toy_bootloader.Common.{
  ℕ, ◌/◌, ◌^◌, ◌==◌, Bool, none, some, if◌then◌else◌, test_bit, bit_and, bit_or,
}
use toy_bootloader.Machine.{
  ErrT, expected_true, expected_false, abnormal_termination, invalid_command, polling_termination,
  Env, M, pure, ◌>>=◌, do_inb, do_outb,
}
use Prim.Native.String.{String}

abbrev pub fpy_dor : ℕ
fpy_dor = 0x3f2

abbrev pub fpy_msr : ℕ
fpy_msr = 0x3f4

abbrev pub fpy_dsr : ℕ
fpy_dsr = 0x3f4

abbrev pub fpy_fifo : ℕ
fpy_fifo = 0x3f5

abbrev pub fpy_ctrl : ℕ
fpy_ctrl = 0x3f7

-- `enum fpy_dor_mask`
pub data FpyDorMask : Type 0 where
  mask_drive0 mask_drive1 mask_drive2 mask_drive3 mask_reset mask_dma : FpyDorMask
  mask_drive0_motor mask_drive1_motor mask_drive2_motor mask_drive3_motor : FpyDorMask

abbrev pub dor_mask : FpyDorMask → ℕ
dor_mask mask_drive0 = 0
dor_mask mask_drive1 = 1
dor_mask mask_drive2 = 2
dor_mask mask_drive3 = 3
dor_mask mask_reset = 4
dor_mask mask_dma = 8
dor_mask mask_drive0_motor = 16
dor_mask mask_drive1_motor = 32
dor_mask mask_drive2_motor = 64
dor_mask mask_drive3_motor = 128

-- `struct fpy_msr`, a bit-field over one byte.
pub record FpyMsr : Type 0 where
  pub drive1_pos_mode : Bool
  pub drive2_pos_mode : Bool
  pub drive3_pos_mode : Bool
  pub drive4_pos_mode : Bool
  pub busy : Bool
  pub ndma : Bool
  pub dataio : Bool
  pub mrq : Bool

unfoldable pub msr_of_byte : ℕ → FpyMsr
msr_of_byte a = record {
  drive1_pos_mode = test_bit a 0;
  drive2_pos_mode = test_bit a 1;
  drive3_pos_mode = test_bit a 2;
  drive4_pos_mode = test_bit a 3;
  busy = test_bit a 4;
  ndma = test_bit a 5;
  dataio = test_bit a 6;
  mrq = test_bit a 7;
}

unfoldable pub fpy_read_status : Env → M FpyMsr
unfolding msr_of_byte
fpy_read_status env = do a ← do_inb env fpy_msr; pure (msr_of_byte a)

unfoldable pub fpy_get_dor_mask_drive : ℕ → ℕ
fpy_get_dor_mask_drive drive_number =
    if drive_number == 0
    then dor_mask mask_drive0_motor
    else if drive_number == 1
    then dor_mask mask_drive1_motor
    else if drive_number == 2
    then dor_mask mask_drive2_motor
    else if drive_number == 3
    then dor_mask mask_drive3_motor
    else 0xFF

unfoldable pub fpy_write_dor : ℕ → M (Unit {0})
fpy_write_dor v = do_outb fpy_dor v

unfoldable pub fpy_write_dsr : ℕ → M (Unit {0})
fpy_write_dsr v = do_outb fpy_dsr v

unfoldable pub fpy_write_ccr : ℕ → M (Unit {0})
fpy_write_ccr val = do_outb fpy_ctrl val

unfoldable pub fpy_disable_controller : M (Unit {0})
unfolding fpy_write_dor
fpy_disable_controller = fpy_write_dor 0

unfoldable pub fpy_enable_controller : M (Unit {0})
unfolding fpy_write_dor
fpy_enable_controller = fpy_write_dor (bit_or (dor_mask mask_reset) (dor_mask mask_dma))

unfoldable pub fpy_motor_disable : M (Unit {0})
unfolding fpy_write_dor
fpy_motor_disable = fpy_write_dor (dor_mask mask_reset)

unfoldable pub motor_bits : ℕ → ℕ
unfolding fpy_get_dor_mask_drive
motor_bits drive_number =
    bit_or
      (bit_or (bit_or drive_number (fpy_get_dor_mask_drive drive_number)) (dor_mask mask_reset))
      (dor_mask mask_dma)

unfoldable pub fpy_motor_enable : Env → M (Unit {0})
unfolding fpy_write_dor
fpy_motor_enable env = fpy_write_dor (motor_bits env.props.drive_number)

-- The macros `MUST_FALSE` and `MUST_TRUE`: an early return, or what follows.
must_false : String → ℕ → ℕ → String → ErrT → ErrT
must_false reg v bit name next = if test_bit v bit then some (expected_false reg bit name) else next

must_true : String → ℕ → ℕ → String → ErrT → ErrT
must_true reg v bit name next = if test_bit v bit then next else some (expected_true reg bit name)

unfoldable pub fpy_check_st0 : ℕ → ErrT
unfolding must_false
fpy_check_st0 st0 = must_false "st0" st0 3 "NR" (
    let ic = bit_and st0 0xC0 / 2 ^ 6 in
    if ic == 1
    then some abnormal_termination
    else if ic == 2
    then some invalid_command
    else if ic == 3
    then some polling_termination
    else none)

unfoldable pub fpy_check_st1 : ℕ → ErrT
unfolding must_false
fpy_check_st1 st1 = must_false "st1" st1 5 "DE" (
    must_false "st1" st1 4 "TO" (
      must_false "st1" st1 2 "NDAT"
        (must_false "st1" st1 1 "NW" (must_false "st1" st1 0 "NID" none))))

unfoldable pub fpy_check_st2 : ℕ → ErrT
unfolding must_false
fpy_check_st2 st2 = must_false "st2" st2 5 "CRCE" (
    must_false "st2" st2 4 "WCYL"
      (must_false "st2" st2 1 "BCYL" (must_false "st2" st2 0 "NDAM" none)))

unfoldable pub fpy_check_st3 : ℕ → ErrT
unfolding must_false must_true
fpy_check_st3 st3 =
    must_false "st3" st3 7 "ESIG" (must_true "st3" st3 5 "RDY" (must_false "st3" st3 1 "BCYL" none))
