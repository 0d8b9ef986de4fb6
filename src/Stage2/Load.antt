-- ===== src/Stage2/Load.antt =====
-- stage2/load.c: the functions of stage 2's init table, with the progress bar before each.
use toy_bootloader.Common.{ℕ, ◌+◌, some, List, [], ◌∷◌, length, u16}
use toy_bootloader.Real.{RealArg, value, text, Bios, R, pure, ◌>>◌}
use toy_bootloader.Stage2.Screen.{
  blue, light_gray, color_code, color_char, set_color, puts, printf, update_progress_bar,
}
use Prim.Native.String.{String}

-- An entry of stage 2's init table.
pub record RealInit : Type 0 where
  pub fun : R (Unit {0})
  pub name : String
  pub file : String

-- `COLOR(blue), f, COLOR(light_gray)`
abbrev pub colored : RealArg → List RealArg → List RealArg
colored f rest = value (color_char blue) ∷ f ∷ value (color_char light_gray) ∷ rest

abbrev pub task_args : RealInit → ℕ → ℕ → List RealArg
task_args f current_task task_count =
    colored (text f.name)
      (colored (text f.file) (colored (value current_task) (colored (value task_count) [])))

-- The texts that are not formats.
abbrev pub stage_2_loaded : List ℕ
stage_2_loaded =
    b's' ∷ b't' ∷ b'a' ∷ b'g' ∷ b'e' ∷ b' ' ∷ b'2' ∷ b' ' ∷ b'l' ∷ b'o' ∷ b'a' ∷ b'd' ∷ b'e' ∷ b'd'
    ∷ b'\n' ∷ []

abbrev pub executing_stage_2 : List ℕ
executing_stage_2 =
    b'e' ∷ b'x' ∷ b'e' ∷ b'c' ∷ b'u' ∷ b't' ∷ b'i' ∷ b'n' ∷ b'g' ∷ b' ' ∷ b's' ∷ b't' ∷ b'a' ∷ b'g'
    ∷ b'e' ∷ b' ' ∷ b'2' ∷ b' ' ∷ b':' ∷ b' ' ∷ []

module _ (env : Bios) where
  -- The `for` loop, over the entries that are left; `current_task` counts from 1.
  unfoldable pub run_tasks : ℕ → ℕ → List RealInit → R (Unit {0})
  unfolding color_char
  run_tasks current_task task_count [] = pure tt
  run_tasks current_task task_count (f ∷ fs) = do
    update_progress_bar env current_task task_count
    printf env "executing `%c%s%c` in `%c%s%c` (%c%hu%c of %c%hu%c)\n"
        (task_args f current_task task_count)
    f.fun
    printf env "done\n\n" []
    run_tasks (u16 (current_task + 1)) task_count fs

  unfoldable pub stage2_load : List RealInit → R (Unit {0})
  unfolding color_code
  stage2_load inits = do
    puts env stage_2_loaded
    set_color (color_code light_gray)
    puts env executing_stage_2
    λ m. some (tt, record m { progress_cursor = m.cursor_pos })
    puts env (b'\n' ∷ [])
    let task_count = u16 (length inits)
    run_tasks 1 task_count inits
    update_progress_bar env (u16 (task_count + 1)) task_count
    printf env "stage 2 finished\n\n " []
