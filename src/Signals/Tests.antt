-- ===== src/Signals/Tests.antt =====
-- The programs of lab2 at concrete command lines.
use sys_op.Prelude.{[], ◌∷◌, true, false, codes, inl, inr, some, refl, ◌≡◌, ◌≢◌}
use sys_op.Signals.Kernel.{exited}
use sys_op.Signals.Modes.{Text, same_text}
use sys_op.Signals.Child.{mode_setup}
use sys_op.Signals.Loop.{main}
use sys_op.Signals.Outcomes.{started, working, IsUsage}
use sys_op.Signals.Pair.{Library, launch, launch-main, pair_working}

abbrev prog : Text
prog = codes "./main"

apart : (s t : Text) → same_text s s ≡ true → same_text s t ≡ false → s ≢ t
apart s t same other e = absurd (cc)

not-IsUsage : ¬ IsUsage (prog ∷ codes "kill" ∷ [])
unfolding same_text
not-IsUsage (inl e) = apart (codes "kill") (codes "default") refl refl e
not-IsUsage (inr (inl e)) = apart (codes "kill") (codes "mask") refl refl e
not-IsUsage (inr (inr (inl e))) = apart (codes "kill") (codes "ignore") refl refl e
not-IsUsage (inr (inr (inr e))) = apart (codes "kill") (codes "handle") refl refl e

launch-main_example :
    launch (mode_setup working) pair_working working (prog ∷ codes "mask" ∷ []) (started [])
    ≡ (exited 0 (started []), some (main working (prog ∷ codes "mask" ∷ []) (started [])))
launch-main_example = launch-main working prog (codes "mask") (inr (inl refl))

abbrev no_library : Library
no_library = record { dlopen_ok = false; dlsym_ok = true }
