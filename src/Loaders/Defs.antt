-- ===== src/Loaders/Defs.antt =====
-- Each stage clears its bss, runs the functions of its init table, and reads the next stage.
use toy_bootloader.Common.{
  ℕ, zero, suc, ◌+◌, ◌-◌, ◌/◌, ◌%◌, ◌^◌, true, false, none, some, List, [], ◌∷◌, bit_and, ltb, ◌==◌,
  if◌then◌else◌, length, u8, u32,
}
use toy_bootloader.Machine.{
  IntInfos, Env, Handler, number, text, message, M, pure, ◌>>=◌, ◌>>◌, hang, update, set_interrupt,
}
use toy_bootloader.Serial.Defs.{printf}
use toy_bootloader.Floppy.Types.{CheckInterruptRes, ReadtrackRes}
use toy_bootloader.Floppy.Irq.{fpy_setup_idt}
use toy_bootloader.Floppy.Read.{fpy_copy_bytes}
use Prim.Native.String.{String}

-- An entry of the init table.
pub record Init : Type 0 where
  pub name : String
  pub file : String
  pub fun : M (Unit {0})

-- What the linker sets: where each part begins on the disk and in memory, and its size.
pub record Part : Type 0 where
  pub first_section_index : ℕ
  pub start : ℕ
  pub size : ℕ

-- `*s++ = 0`, for the rounds that are left.
unfoldable pub zero_bytes : ℕ → ℕ → (ℕ → ℕ) → ℕ → ℕ
zero_bytes zero s mem = mem
zero_bytes (suc n) s mem = zero_bytes n (s + 1) (update mem s 0)

-- `while (s != e)`: with `e` below `s` it would run through the whole address space.
unfoldable pub memreset : ℕ → ℕ → M (Unit {0})
memreset s e = elim (ltb e s) [
  | true ↦ hang
  | false ↦ λ m. some (tt, record m { mem = zero_bytes (e - s) s m.mem })
]

-- `while (start < end)`
unfoldable pub reset_bss : ℕ → ℕ → M (Unit {0})
reset_bss start end_at m = some (tt, record m { mem = zero_bytes (end_at - start) start m.mem })

-- The `for` loop over the init table, over the entries that are left.
unfoldable pub run_inits : Env → ℕ → ℕ → List Init → M (Unit {0})
run_inits env current count [] = pure tt
run_inits env current count (f ∷ fs) = do
  printf env "executing `%s` in `%s` (%u of %u)\n"
      (text f.name ∷ text f.file ∷ number current ∷ number count ∷ [])
  f.fun
  run_inits env (current + 1) count fs

module _ (env : Env) (fuel : ℕ) (r : CheckInterruptRes) (uninit : ReadtrackRes) where
  -- Up to the jump to `stage4_start`; the results of the two reads are not looked at.
  unfoldable pub load_protected : Part → Part → ℕ → ℕ → M (Unit {0})
  load_protected stage_4 stage_5 bss_start bss_end = do
    fpy_setup_idt
    err4 ← fpy_copy_bytes env fuel r uninit stage_4.first_section_index stage_4.start stage_4.size
    err5 ← fpy_copy_bytes env fuel r uninit stage_5.first_section_index stage_5.start stage_5.size
    reset_bss bss_start bss_end

  unfoldable pub copy_stage4 : Part → M (Unit {0})
  copy_stage4 part = do
    printf env "copying %d bytes from floppy disk sector %d to 0x%p\n"
        (number part.size ∷ number part.first_section_index ∷ number part.start ∷ [])
    err ← fpy_copy_bytes env fuel r uninit part.first_section_index part.start part.size
    elim err [ some x ↦ printf env "error : %s\n" (message x ∷ []) | none ↦ pure tt ]
    printf env "success\n" []

-- Up to the jump to `load_protected`.
unfoldable pub stage3_load : Env → ℕ → ℕ → List Init → M (Unit {0})
stage3_load env bss_start bss_end inits = do
  printf env "*********************\n\n" []
  printf env "stage3 loadled (now in protected)\n" []
  printf env "reseting bss\n" []
  memreset bss_start bss_end
  printf env "executing stage3 :\n\n" []
  run_inits env 1 (length inits) inits
  printf env "stage 3 finished\n" []
  printf env "jumping in load_protected\n" []

-- A hexadecimal digit.
unfoldable pub digit : ℕ → ℕ
digit h = if ltb 0x9 h then h - 0xA + b'A' else h + b'0'

-- The loop of `hexdump`, with the rounds that are left.
unfoldable pub hex_bytes : Env → ℕ → ℕ → ℕ → M (Unit {0})
unfolding digit
hex_bytes env zero i ptr = pure tt
hex_bytes env (suc n) i ptr = do
  elim (i % 10 == 0) [ true ↦ printf env "\n" [] | false ↦ pure tt ]
  b ← λ m. some (u8 (m.mem (ptr + i)), m)
  printf env "%c%c " (number (digit (b / 2 ^ 4)) ∷ number (digit (bit_and b 0xF)) ∷ [])
  hex_bytes env n (i + 1) ptr

unfoldable pub hexdump : Env → ℕ → ℕ → M (Unit {0})
hexdump env count ptr = do hex_bytes env count 0 ptr; printf env "\n" []

unfoldable pub handle_int3 : Env → ℕ → IntInfos → M (Unit {0})
handle_int3 env stage_3_start r = do
  printf env "*GOT DEBUG INTERRUPTION\n" []
  printf env "* regs: \n* edi:0x%x, esi:0x%x, edx:0x%x, ecx:0x%x, eax:0x%x, ip:0x%x\n"
      (number r.edi ∷ number r.esi ∷ number r.edx ∷ number r.ecx ∷ number r.eax ∷ number r.ip ∷ [])
  printf env "*stage3 local address : 0x%x \n" (number (u32 (r.ip + 2 ^ 32 - stage_3_start)) ∷ [])
  printf env "*next code: \n" []
  hexdump env 40 r.ip
  printf env "*END OF DEBUG\n" []

unfoldable pub breakpoint_instr : M (Unit {0})
breakpoint_instr = set_interrupt 3 Handler.handle_int3
