-- ===== src/Floppy/Fifo.antt =====
-- The FIFO protocol of shared/floppy_impl.h: waiting for the data register, reading one byte,
-- sending one byte, and sending a command.
use toy_bootloader.Common.{ℕ, zero, suc, Bool, true, false, not, ◌||◌, none, some, List, [], ◌∷◌}
use toy_bootloader.Machine.{
  ErrT, timeout, bad_msr_values, msr_dataio, Env, M, pure, ◌>>=◌, ◌>>◌, ◌>>!◌, hang, do_inb,
  do_outb,
}
use toy_bootloader.Floppy.Status.{fpy_fifo, FpyMsr, fpy_read_status}

-- The `for` loop of `fpy_read_data`, with the rounds that are left.
unfoldable pub read_data_loop : Env → ℕ → M ℕ
read_data_loop env zero = pure 0xFF
read_data_loop env (suc n) = do
  msr ← fpy_read_status env
  elim msr.mrq [ true ↦ do_inb env fpy_fifo | false ↦ read_data_loop env n ]

unfoldable pub fpy_read_data : Env → M ℕ
fpy_read_data env = read_data_loop env 1000

unfoldable pub send_byte_loop : Env → ℕ → ℕ → M ErrT
send_byte_loop env zero cmd = pure (some timeout)
send_byte_loop env (suc n) cmd = do
  msr ← fpy_read_status env
  elim msr.mrq [ true ↦ do do_outb fpy_fifo cmd; pure none | false ↦ send_byte_loop env n cmd ]

unfoldable pub fpy_send_command_byte : Env → ℕ → M ErrT
fpy_send_command_byte env cmd = send_byte_loop env 1000 cmd

-- `while (!fpy_read_status().mrq);`
unfoldable pub wait_mrq : Env → ℕ → M (Unit {0})
wait_mrq env zero = hang
wait_mrq env (suc fuel) = do
  msr ← fpy_read_status env
  elim msr.mrq [ true ↦ pure tt | false ↦ wait_mrq env fuel ]

-- The `for` loop of `fpy_send_command`, over the bytes that are left; the list stands for `size`
-- and `cmd`, which every caller takes from one array. `msr` is the status read before the loop.
unfoldable pub send_bytes : Env → ℕ → FpyMsr → List ℕ → M ErrT
send_bytes env fuel msr [] = pure none
send_bytes env fuel msr (c ∷ cs) = do
  wait_mrq env fuel
  elim msr.dataio [
    | true ↦ pure (some msr_dataio)
    | false ↦ fpy_send_command_byte env c >>! send_bytes env fuel msr cs
  ]

unfoldable pub fpy_send_command : Env → ℕ → List ℕ → Bool → M ErrT
fpy_send_command env fuel cmd mrq = do
  msr ← fpy_read_status env
  elim (not msr.mrq || msr.dataio) [
    | true ↦ pure (some bad_msr_values)
    | false ↦
        send_bytes env fuel msr cmd
        >>! elim mrq [ true ↦ do wait_mrq env fuel; pure none | false ↦ pure none ]
  ]
