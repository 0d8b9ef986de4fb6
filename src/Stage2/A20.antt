-- ===== src/Stage2/A20.antt =====
-- stage2/a20.c: the address line 20 is opened by the BIOS, or else through the keyboard controller.
use toy_bootloader.Common.{ℕ, zero, suc, Bool, true, false, not, [], bit_or, ◌==◌}
use toy_bootloader.Real.{Bios, R, pure, ◌>>=◌, ◌>>◌, stuck, do_int, do_inb, do_outb}
use toy_bootloader.Stage2.Screen.{printf}

-- The first call names no outputs; the second leaves its AX in `return_code`.
unfoldable pub a20_int15 : Bios → R ℕ
a20_int15 env = do
  printf env "|| activate a20 with int15 ax=2401\n" []
  ignored ← do_int env 0x15 (record { ax = 0x2401; bx = 0; cx = 0; dx = 0 })
  reply ← do_int env 0x15 (record { ax = 0x2402; bx = 0; cx = 0; dx = 0 })
  pure reply.regs.ax

-- `n == (a == 2)`
unfoldable pub keeps_waiting : Bool → ℕ → Bool
keeps_waiting true a = a == 2
keeps_waiting false a = not (a == 2)

unfoldable pub a20_keyboard_wait : Bios → ℕ → Bool → R (Unit {0})
unfolding keeps_waiting
a20_keyboard_wait env zero n = stuck
a20_keyboard_wait env (suc fuel) n = do
  a ← do_inb env 0x64
  elim (keeps_waiting n a) [ true ↦ a20_keyboard_wait env fuel n | false ↦ pure tt ]

unfoldable pub a20_keyboard : Bios → ℕ → R ℕ
a20_keyboard env fuel = do
  printf env "|| activate a20 with keyboard\n" []
  a20_keyboard_wait env fuel false
  do_outb 0x64 0xAD
  a20_keyboard_wait env fuel false
  do_outb 0x64 0xD0
  a20_keyboard_wait env fuel true
  a ← do_inb env 0x60
  a20_keyboard_wait env fuel false
  do_outb 0x64 0xD1
  a20_keyboard_wait env fuel false
  do_outb 0x60 (bit_or a 2)
  a20_keyboard_wait env fuel false
  do_outb 0x64 0xAE
  a20_keyboard_wait env fuel false
  pure 1

unfoldable pub a20 : Bios → ℕ → R (Unit {0})
a20 env fuel = do
  done ← a20_int15 env
  elim (done == 0) [
    | false ↦ printf env "|\\ success \n" []
    | true ↦ do
      printf env "|\\ failed\n" []
      done ← a20_keyboard env fuel
      elim (done == 0) [
        | false ↦ printf env "|\\ success \n" []
        | true ↦ printf env "|\\ failed \n" []
      ]
  ]
