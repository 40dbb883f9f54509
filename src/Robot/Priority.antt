-- ===== src/Robot/Priority.antt =====
-- `set_thread_priority` of lab6/src/program3.c, and the four calls of it in `main`.
use sys_op.Prelude.{ℕ, ◌+◌, ◌≡◌, refl, ap, List, [], ◌∷◌, Bool, true, false, ◌&&◌, if◌then◌else◌}

-- The static flag `warned`, and how many warnings have been printed.
pub record Warnings : Type 0 where
  pub warned : Bool
  pub printed : ℕ

-- atomic_compare_exchange_strong(&warned, &expected, true) with `expected` false, and the warning
-- that follows it when it has succeeded.
unfoldable pub warn_once : Bool → Warnings → Warnings
warn_once true w = w
warn_once false w = record { warned = true; printed = w.printed + 1 }

-- `ok` tells whether pthread_setschedparam succeeds.
unfoldable pub set_thread_priority : Bool → Warnings → Warnings
set_thread_priority ok w = if ok then w else warn_once w.warned w

-- The calls of `main`, in their order: for the robot's state, the watchdog and the two cameras.
unfoldable pub set_priorities : List Bool → Warnings → Warnings
set_priorities [] w = w
set_priorities (ok ∷ oks) w = set_priorities oks (set_thread_priority ok w)

abbrev all_ok : List Bool → Bool
all_ok [] = true
all_ok (ok ∷ oks) = ok && all_ok oks

silent :
    (oks : List Bool) (n : ℕ)
    → set_priorities oks (record { warned = true; printed = n })
      ≡ record { warned = true; printed = n }
unfolding set_priorities set_thread_priority warn_once
silent [] n = refl
silent (true ∷ oks) n = silent oks n
silent (false ∷ oks) n = silent oks n

-- However many of the calls fail, the warning is printed once, and not at all if none does.
warned_once :
    (oks : List Bool)
    → (set_priorities oks (record { warned = false; printed = 0 })).printed
      ≡ (if all_ok oks then 0 else 1)
unfolding set_priorities set_thread_priority warn_once
warned_once [] = refl
warned_once (true ∷ oks) = warned_once oks
warned_once (false ∷ oks) = ap (λ w. w.printed) (silent oks 1)
