-- ===== src/Loaders/Order.antt =====
-- The order of the functions of the init tables of stages 3 and 5.
use toy_bootloader.Common.{
  ℕ, suc, ◌+◌, ◌-◌, ◌≤◌, ◌≡◌, refl, some, List, [], ◌∷◌, arith, All, length, Steps, done, step,
}
use toy_bootloader.Machine.{Trace, Adds, Env, Machine, M, Arg, number, text}
use toy_bootloader.Serial.Ports.{IsCom, OnLine, printf-OnLine, put_chars-OnLine}
use toy_bootloader.Loaders.Defs.{Init, zero_bytes, memreset, run_inits, stage3_load}
use toy_bootloader.Serial.Defs.{puts64}
use Prim.Native.String.{String}
use toy_bootloader.Loaders.Late.{printf5, run_modules, stage5_load}

-- All but the accesses so far and the console's own variable.
abbrev pub rest : Machine → Machine
rest m = record m { trace = []; is_init = 0 }

-- From every state in `P` the function returns to a state in `P`, and what it does to the rest of the
-- machine is one of its effects.
abbrev pub Acts : (Machine → Type 0) → (Init → Machine → Machine → Type 0) → Init → Type 0
Acts P Effect f =
    (m : Machine)
    → P m
    → (m' : Machine) × (f.fun m ≡ some (tt, m')) × P m' × Effect f (rest m) (rest m')

-- Printing and the clearing of a bss do not leave `P`.
abbrev pub Stable : (Machine → Type 0) → Type 0
Stable P =
    (m : Machine) (i : ℕ) (t : Trace) (mem : ℕ → ℕ)
    → Adds IsCom m.trace t
    → P m
    → P (record m { is_init = i; trace = t; mem = mem })

-- The state that a computation on the line leaves.
abbrev printed : {p : M (Unit {0})} (m : Machine) → OnLine p m → Machine
printed m d = record m { is_init = d.init; trace = d.trace }

printf5-OnLine :
    (env : Env) (fmt : String) (args : List Arg) (m : Machine) → OnLine (printf5 env fmt args) m
unfolding printf5 puts64
printf5-OnLine env fmt args m = put_chars-OnLine (env.format fmt args) m

module _ (env : Env) (P : Machine → Type 0) (stable : Stable P)
    (Effect : Init → Machine → Machine → Type 0) where
  -- A line that is printed.
  still : {p : M (Unit {0})} (m : Machine) (d : OnLine p m) → P m → P (printed m d)
  still m d ok = stable m d.init d.trace m.mem d.adds ok

  run_inits-Steps :
      (current count : ℕ) (inits : List Init) (m : Machine)
      → All (Acts P Effect) inits
      → P m
      → (m' : Machine) × (run_inits env current count inits m ≡ some (tt, m'))
        × P m'
        × Steps Effect inits (rest m) (rest m')
  unfolding run_inits
  run_inits-Steps current count [] m h ok = (m, refl, ok, done (rest m))
  run_inits-Steps current count (f ∷ fs) m (h, hs) ok =
      let d =
        printf-OnLine env "executing `%s` in `%s` (%u of %u)\n"
          (text f.name ∷ text f.file ∷ number current ∷ number count ∷ []) m in
      let (m1, run, ok1, eff) = h (printed m d) (still m d ok) in
      let (m', more, ok', steps) = run_inits-Steps (current + 1) count fs m1 hs ok1 in
      (m', ground (arith, d.returns, run, more), ok', step f fs _ _ _ eff steps)

  -- For a condition that printing and the clearing of a bss keep: if every function of the init table
  -- returns from every state of the condition, to such a state, then so does `stage3_load` up to its
  -- jump, for every table and every bss that does not end before it begins. Apart from the console, it
  -- has cleared the bss and then done what the functions of the table do, each run once and in the
  -- order of the table.
  pub stage3_load-Steps :
      (s e : ℕ) (inits : List Init) (m : Machine)
      → s ≤ e
      → All (Acts P Effect) inits
      → P m
      → (m' : Machine) × (stage3_load env s e inits m ≡ some (tt, m'))
        × P m'
        × Steps Effect inits (record (rest m) { mem = zero_bytes (e - s) s m.mem }) (rest m')
  unfolding stage3_load memreset
  stage3_load-Steps s e inits m le h ok =
      let d1 = printf-OnLine env "*********************\n\n" [] m in
      let m1 = printed m d1 in
      let d2 = printf-OnLine env "stage3 loadled (now in protected)\n" [] m1 in
      let m2 = printed m1 d2 in
      let d3 = printf-OnLine env "reseting bss\n" [] m2 in
      let ok2 = still m1 d2 (still m d1 ok) in
      let m3 = record (printed m2 d3) { mem = zero_bytes (e - s) s m.mem } in
      let d4 = printf-OnLine env "executing stage3 :\n\n" [] m3 in
      let ok3 = stable m2 d3.init d3.trace m3.mem d3.adds ok2 in
      let (m5, run, ok5, steps) =
        run_inits-Steps 1 (length inits) inits (printed m3 d4) h (still m3 d4 ok3) in
      let d6 = printf-OnLine env "stage 3 finished\n" [] m5 in
      let m6 = printed m5 d6 in
      let d7 = printf-OnLine env "jumping in load_protected\n" [] m6 in
      (
        printed m6 d7,
        ground (
          arith, d1.returns, d2.returns, d3.returns, d4.returns, run, d6.returns, d7.returns, le,
        ),
        still m6 d7 (still m5 d6 ok5),
        steps,
      )

  run_modules-Steps :
      (count : ℕ) (inits : List Init) (m : Machine)
      → All (Acts P Effect) inits
      → P m
      → (m' : Machine) × (run_modules env count inits m ≡ some (tt, m'))
        × P m'
        × Steps Effect inits (rest m) (rest m')
  unfolding run_modules
  run_modules-Steps count [] m h ok = (m, refl, ok, done (rest m))
  run_modules-Steps count (f ∷ fs) m (h, hs) ok =
      let d =
        printf5-OnLine env "executing `%s` in `%s` (%u of %u)\n"
          (text f.name ∷ text f.file ∷ number (suc (length fs)) ∷ number count ∷ []) m in
      let (m1, run, ok1, eff) = h (printed m d) (still m d ok) in
      let (m', more, ok', steps) = run_modules-Steps count fs m1 hs ok1 in
      (m', ground (arith, d.returns, run, more), ok', step f fs _ _ _ eff steps)

  -- For a condition as in stage 3, `stage5_load` comes to its endless loop in a state of the condition,
  -- from every such state and for every table of functions that return so, and has then, apart from
  -- the console, done what the functions of the table do, each run once and in the order of the table.
  pub stage5_load-Steps :
      (inits : List Init) (m : Machine)
      → All (Acts P Effect) inits
      → P m
      → (m' : Machine) × (stage5_load env inits m ≡ some (tt, m'))
        × P m'
        × Steps Effect inits (rest m) (rest m')
  unfolding stage5_load
  stage5_load-Steps inits m h ok =
      let d1 = printf5-OnLine env "\nnow in stage 5 (64 bit)\n" [] m in
      let m1 = printed m d1 in
      let d2 = printf5-OnLine env "loading modules\n" [] m1 in
      let (m3, run, ok3, steps) =
        run_modules-Steps (length inits) inits (printed m1 d2) h (still m1 d2 (still m d1 ok)) in
      let d4 = printf5-OnLine env "finished\n" [] m3 in
      (
        printed m3 d4,
        ground (arith, d1.returns, d2.returns, run, d4.returns),
        still m3 d4 ok3,
        steps,
      )
