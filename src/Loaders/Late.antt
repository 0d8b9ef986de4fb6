-- ===== src/Loaders/Late.antt =====
-- stage4/load.c and stage5/load.c, up to the jump and to the loop that the processor stays in.
use toy_bootloader.Common.{ℕ, suc, List, [], ◌∷◌, length}
use toy_bootloader.Machine.{Env, Arg, number, text, M, pure, ◌>>=◌, ◌>>◌}
use toy_bootloader.Real.{Segments}
use toy_bootloader.Serial.Defs.{puts64}
use toy_bootloader.Serial.Long
use toy_bootloader.Stage4.Paging.{Tables, Control, setup_paging}
use toy_bootloader.Loaders.Defs.{Init}
use Prim.Native.String.{String}

-- `printf` of stage 4 and of stage 5: the kernel's formatter, then the stage's `puts`.
unfoldable pub printf4 : Env → String → List Arg → M (Unit {0})
printf4 env fmt args = do ignored ← Long.puts env (env.format fmt args); pure tt

unfoldable pub printf5 : Env → String → List Arg → M (Unit {0})
printf5 env fmt args = puts64 (env.format fmt args)

-- The jump to stage 5 follows.
unfoldable pub stage4_load : Env → Tables → Control → Segments → M (Tables × Control × Segments)
stage4_load env t c s = do
  printf4 env "stage4 loaded\n" []
  printf4 env "idt loaded\n" []
  let r = setup_paging t c s
  printf4 env "paging enabled\n" []
  pure r

-- The `for` loop, over the entries that are left; `&_stage5_init_end - i` is how many these are.
unfoldable pub run_modules : Env → ℕ → List Init → M (Unit {0})
run_modules env count [] = pure tt
run_modules env count (i ∷ is) = do
  printf5 env "executing `%s` in `%s` (%u of %u)\n"
      (text i.name ∷ text i.file ∷ number (suc (length is)) ∷ number count ∷ [])
  i.fun
  run_modules env count is

-- `for(;;);` follows.
unfoldable pub stage5_load : Env → List Init → M (Unit {0})
stage5_load env inits = do
  printf5 env "\nnow in stage 5 (64 bit)\n" []
  printf5 env "loading modules\n" []
  run_modules env (length inits) inits
  printf5 env "finished\n" []
