-- ===== src/Signals/Pair.antt =====
-- lab2/zad2 and lab2/zad3: a parent reads the mode and sends it with SIGUSR2 to a child, which sets
-- it up and runs the loop.
use sys_op.Prelude.{
  ap, ℕ, ◌≡◌, refl, List, [], ◌∷◌, Bool, true, false, if◌then◌else◌, ◌==◌, Option, none, some, inl,
  inr, ◌⊎◌, ◌&&◌,
}
use sys_op.Signals.Kernel.{
  Process, Program, Run, running, killed, exited, ◌>>◌, pure, print, exit, Os, improper_mode,
  failure,
}
use sys_op.Signals.Modes.{Text, same_text, parse_input}
use sys_op.Signals.Loop.{main}
use sys_op.Signals.Child.{
  mode_setup, sig_default, sig_mask, sig_ignore, sig_handle, proceed, rest_of_main, proceed-main,
}
use sys_op.Signals.Outcomes.{started, IsUsage}

-- Which further calls succeed. `installed` tells whether the child has its handler of SIGUSR2 by
-- the time that the signal comes, which the parent's sleep(1) is there for.
pub record PairOs : Type 0 where
  pub fork_ok : Bool
  pub execl_ok : Bool
  pub sigqueue_ok : Bool
  pub usr2_ok : Bool
  pub installed : Bool

-- `while (received_mode == 0) pause();` over the values that SIGUSR2 brings, which its handler
-- stores; `none`: the child still waits.
unfoldable pub await_mode : List ℕ → Option ℕ
await_mode [] = none
await_mode (sival_int ∷ later) = if sival_int == 0 then await_mode later else some sival_int

unfoldable pub initialize_usr2_handling : PairOs → Program (Unit {0})
initialize_usr2_handling pos = if pos.usr2_ok then pure tt else (do print failure; exit 1)

-- The child, by its `mode_setup`. A child that waits for ever is one that runs.
unfoldable pub child_main : (ℕ → Program (Unit {0})) → PairOs → Os → List ℕ → Program (Unit {0})
child_main setup pos os signals = do
  initialize_usr2_handling pos
  elim (await_mode signals) [ none ↦ pure tt | some received_mode ↦ proceed setup os received_mode ]

-- `main` of the parent with the child that it starts: what becomes of the two.
unfoldable pub launch :
    (ℕ → Program (Unit {0}))
    → PairOs
    → Os
    → List Text
    → Process
    → Run (Unit {0}) × Option (Run (Unit {0}))
launch setup pos os argv p = elim (parse_input argv p) [
  | killed q ↦ (killed q, none)
  | exited n q ↦ (exited n q, none)
  | running mode q ↦
      if pos.fork_ok
      then (if pos.sigqueue_ok
          then (
            exited 0 q,
            if pos.execl_ok
                then (if pos.installed
                    then some (child_main setup pos os (mode ∷ []) (started []))
                    else some (killed (started [])))
                else some (exited 1 (started (failure ∷ []))),
          )
          else (exited 1 (record q { output = failure ∷ q.output }), some (killed (started []))))
      else (exited 1 (record q { output = failure ∷ q.output }), none)
]

-- Whether the library of lab2/zad3 and a function in it are found.
pub record Library : Type 0 where
  pub dlopen_ok : Bool
  pub dlsym_ok : Bool

-- The name that `mode_setup` of lab2/zad3 looks up, with the function that the library has there.
abbrev library_function : Os → ℕ → Option (Program (Unit {0}))
library_function os mode =
    if mode == b'd'
    then some (sig_default os)
    else if mode == b'm'
    then some (sig_mask os)
    else if mode == b'i'
    then some (sig_ignore os)
    else if mode == b'h'
    then some (sig_handle os)
    else none

unfoldable pub mode_setup_dynamic : Library → Os → ℕ → Program (Unit {0})
mode_setup_dynamic lib os mode = elim (library_function os mode) [
  | none ↦ (do print improper_mode; exit 1)
  | some handler_func ↦
      if lib.dlopen_ok
      then (if lib.dlsym_ok then handler_func else (do print failure; exit 1))
      else (do print failure; exit 1)
]

-- The child of lab2/zad3 built with USE_DYNAMIC.
unfoldable pub child_dynamic : Library → PairOs → Os → List ℕ → Program (Unit {0})
child_dynamic lib pos os signals = child_main (mode_setup_dynamic lib os) pos os signals

abbrev pub pair_working : PairOs
pair_working = record {
  fork_ok = true;
  execl_ok = true;
  sigqueue_ok = true;
  usr2_ok = true;
  installed = true;
}

abbrev child_run : Run (Unit {0}) → Run (Unit {0}) × Option (Run (Unit {0}))
child_run r = (exited 0 (started []), some r)

-- For each of the four modes, when the calls that join parent and child work and the handler of
-- SIGUSR2 is installed in time, the parent of lab2/zad2 ends with status 0 and no output of its own,
-- and its child, which has a `mode_setup` and a loop of its own, comes to the same end with the same
-- output as the one process of lab2/zad1, on every outcome of the calls that set up and use the mode.
pub launch-main :
    (os : Os) (prog input : Text)
    → IsUsage (prog ∷ input ∷ [])
    → launch (mode_setup os) pair_working os (prog ∷ input ∷ []) (started [])
      ≡ (exited 0 (started []), some (main os (prog ∷ input ∷ []) (started [])))
unfolding launch main rest_of_main parse_input same_text child_main initialize_usr2_handling
    await_mode
launch-main os prog input (inl e) =
    rw e (ap child_run (proceed-main os b'd' (started []) (inl refl) refl))
launch-main os prog input (inr (inl e)) =
    rw e (ap child_run (proceed-main os b'm' (started []) (inr (inl refl)) refl))
launch-main os prog input (inr (inr (inl e))) =
    rw e (ap child_run (proceed-main os b'i' (started []) (inr (inr (inl refl))) refl))
launch-main os prog input (inr (inr (inr e))) =
    rw e (ap child_run (proceed-main os b'h' (started []) (inr (inr (inr refl))) refl))

two_flags :
    (a b : Bool) (f : Program (Unit {0})) (p : Process)
    → (if a then (if b then f else (do print failure; exit 1)) else (do print failure; exit 1)) p
      ≡ (if a && b then f p else exited 1 (record p { output = failure ∷ p.output }))
two_flags true true f p = refl
two_flags true false f p = refl
two_flags false b f p = refl

-- With the library at hand the dynamic `mode_setup` of lab2/zad3 does for each mode what the static
-- one does; without it, or without the function, it ends the program with status 1.
pub mode_setup_dynamic-mode_setup :
    (lib : Library) (os : Os) (mode : ℕ) (p : Process)
    → (mode ≡ b'd') ⊎ (mode ≡ b'm') ⊎ (mode ≡ b'i') ⊎ (mode ≡ b'h')
    → mode_setup_dynamic lib os mode p ≡ (
        if lib.dlopen_ok && lib.dlsym_ok
        then mode_setup os mode p
        else exited 1 (record p { output = failure ∷ p.output }))
unfolding mode_setup_dynamic mode_setup
mode_setup_dynamic-mode_setup lib os mode p (inl e) =
    rw e (two_flags lib.dlopen_ok lib.dlsym_ok (sig_default os) p)
mode_setup_dynamic-mode_setup lib os mode p (inr (inl e)) =
    rw e (two_flags lib.dlopen_ok lib.dlsym_ok (sig_mask os) p)
mode_setup_dynamic-mode_setup lib os mode p (inr (inr (inl e))) =
    rw e (two_flags lib.dlopen_ok lib.dlsym_ok (sig_ignore os) p)
mode_setup_dynamic-mode_setup lib os mode p (inr (inr (inr e))) =
    rw e (two_flags lib.dlopen_ok lib.dlsym_ok (sig_handle os) p)
