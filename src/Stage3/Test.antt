-- ===== src/Stage3/Test.antt =====
-- `floppy_test` on a drive in good order, with the DMA channel programmed.
use toy_bootloader.Common.{
  ℕ, ◌+◌, ◌*◌, ◌≤◌, ◌≡◌, refl, ap, ◌∙◌, true, some, List, [], ◌∷◌, arith, ◌==◌, Bool-cases, inl,
  inr,
}
use toy_bootloader.Machine.{Env, Machine, Arg, number, text}
use toy_bootloader.Serial.Defs.{printf}
use toy_bootloader.Serial.Ports.{printf-OnLine}
use toy_bootloader.Dma.Chip.{Channel, channel2, is_programmed}
use toy_bootloader.Floppy.Types.{CheckInterruptRes, ReadtrackRes}
use toy_bootloader.Floppy.Block.{read_block, drive_head}
use toy_bootloader.Floppy.Read.{chs_of_lba}
use toy_bootloader.Floppy.Controller.{phase, IsDrive}
use toy_bootloader.Floppy.Reading.{IsReady, Fits, sector_read}
use toy_bootloader.Floppy.Copying.{IsSane, product_nonzero}
use toy_bootloader.Stage3.Drive.{test_params, check_signature, cmd_fail, floppy_test}
use toy_bootloader.Stage3.Dma.{channel2_com, phase_com}
use toy_bootloader.Loaders.Table.{}
use Prim.Native.String.{String}

-- The driver is set up, no command is under way, and the channel is programmed for a read.
pub record CanRead (initial : Channel) (m : Machine) : Type 0 where
  pub driver : IsReady m
  pub channel : is_programmed (channel2 initial m.trace) ≡ true

-- A call of `printf`: it returns, and what the driver stands on is as before.
pub record Printed (env : Env) (fmt : String) (args : List Arg) (m : Machine) : Type 0 where
  pub after : Machine
  pub returns : printf env fmt args m ≡ some (tt, after)
  pub mem : after.mem ≡ m.mem
  pub state : after.fpy_irq_handle_state ≡ m.fpy_irq_handle_state
  pub phase : phase after.trace ≡ phase m.trace
  pub ready : IsReady m → IsReady after
  pub channel : (initial : Channel) → channel2 initial after.trace ≡ channel2 initial m.trace
  pub able : (initial : Channel) → CanRead initial m → CanRead initial after

pub printf_lem : (env : Env) (fmt : String) (args : List Arg) (m : Machine) → Printed env fmt args m
printf_lem env fmt args m =
    let d = printf-OnLine env fmt args m in
    let ready : (ok : IsReady m) → IsReady (record m { is_init = d.init; trace = d.trace }) = λ ok.
      record {
        received = ok.received;
        handler = ok.handler;
        start = phase_com d.adds ∙ ok.start;
      } in
    record {
      after = record m { is_init = d.init; trace = d.trace };
      returns = d.returns;
      mem = refl;
      state = refl;
      phase = phase_com d.adds;
      ready = ready;
      channel = λ initial. channel2_com initial d.adds;
      able = λ initial ok. record {
        driver = ready ok.driver;
        channel = ap is_programmed (channel2_com initial d.adds) ∙ ok.channel;
      };
    }

Fits-test_params :
    (env : Env) (fuel : ℕ) (c : CheckInterruptRes) (uninit : ReadtrackRes)
    → Fits (test_params env fuel c uninit (chs_of_lba env.props 0))
unfolding read_block drive_head
Fits-test_params env fuel c uninit = record { bytes = omega arith; whole = refl }

module _ (env : Env) (fuel bound : ℕ) {initial : Channel} (disk : ℕ → ℕ → ℕ → ℕ → ℕ)
    (drive : IsDrive env initial bound disk) (small : bound ≤ 1000) (enough : bound ≤ fuel)
    (sane : IsSane env.props) (c : CheckInterruptRes) (uninit : ReadtrackRes) where
  signed :
      (m : Machine)
      → CanRead initial m
      → (m' : Machine) × (check_signature env fuel c uninit m ≡ some (tt, m')) × CanRead initial m'
  unfolding check_signature cmd_fail
  signed m ok = elim (Bool-cases (m.mem 0x11FE + m.mem 0x11FF * 256 == 0xaa55)) [
    | inl good ↦
        let d = printf_lem env "| floppy : floppy disk signature check ok\n" [] m in
        (d.after, ground (arith, good, d.returns), d.able initial ok)
    | inr bad ↦
        let d =
          printf_lem env "| floppy : error `%s` (l.%u)\n"
            (text "cannot read floppy disk signature" ∷ number 150 ∷ []) m in
        (d.after, ground (arith, bad, d.returns), d.able initial ok)
  ]

  pub tested :
      (m : Machine)
      → CanRead initial m
      → (m' : Machine) × (floppy_test env fuel c uninit m ≡ some (tt, m')) × CanRead initial m'
  unfolding floppy_test
  tested m ok =
      let nonzero =
        product_nonzero env.props.max_head_number env.props.max_sector_number sane.heads
          sane.sectors in
      let (r, m1, run1, good, ok1, kept, load, same) =
        sector_read env fuel bound disk drive small enough c
          (test_params env fuel c uninit (chs_of_lba env.props 0)) uninit m
          (Fits-test_params env fuel c uninit) ok.driver ok.channel in
      let d = printf_lem env "| floppy : read_sector ok\n" [] m1 in
      let (m', run', ok') =
        signed d.after (
          d.able initial (record { driver = ok1; channel = ap is_programmed kept ∙ ok.channel })) in
      (m', rw nonzero (ground (arith, run1, good, d.returns, run')), ok')
