-- ===== src/Signals/Outcomes.antt =====
-- What lab2/zad1 comes to on a wrong command line, and in each mode when a call of the kernel fails.
use sys_op.Prelude.{
  ℕ, zero, suc, ◌+◌, ◌*◌, ◌/◌, ◌%◌, ◌<◌, ◌≡◌, ◌≢◌, refl, List, [], ◌∷◌, ◌++◌, Bool, true, false,
  codes, arith, ◌⊎◌, inl, inr, Bool-cases,
}
use sys_op.Signals.Kernel.{
  Process, Run, exited, Os, Line, round, sending, handler_message, usage, failure, default_action,
  ignored, handled, custom_handler, sigusr1, raise, sigaction, message_head, sigprocmask_block,
  sigprocmask_unblock,
}
use sys_op.Signals.Modes.{
  Text, same_text, parse_input, mode_setup, sig_default, sig_mask, sig_unblock, sig_ignore,
  sig_handle,
}
use sys_op.Signals.Loop.{check_pending, round_body, rounds, main}

-- A process that has just been started, with what its terminal shows.
abbrev pub started : List Line → Process
started out = record {
  disposition = default_action;
  blocked = false;
  pending = false;
  output = out;
}

abbrev pub working : Os
working = record { sigaction_ok = true; sigprocmask_ok = true; sigpending_ok = true }

-- The lines of the rounds from `i` on, newest first, before the lines `out`.
abbrev pub count_up : ℕ → ℕ → List Line → List Line
count_up zero i out = out
count_up (suc n) i out = count_up n (i + 1) (round i ∷ out)

abbrev pub handled_line : Line
handled_line = handler_message (custom_handler sigusr1)

same_text_sound : (s t : Text) → same_text s t ≡ true → s ≡ t
unfolding same_text
same_text_sound [] [] h = refl
same_text_sound [] (b ∷ t) h = cc
same_text_sound (a ∷ s) [] h = cc
same_text_sound (a ∷ s) (b ∷ t) h = ground (arith, same_text_sound s t)

differ : (s t : Text) → s ≢ t → same_text s t ≡ false
differ s t h = elim (Bool-cases (same_text s t)) [
  | inl same ↦ absurd (h (same_text_sound s t same))
  | inr no_match ↦ no_match
]

-- A command line with one of the four modes.
abbrev pub IsUsage : List Text → Type 0
IsUsage (prog ∷ input ∷ []) =
    (input ≡ codes "default")
    ⊎ (input ≡ codes "mask")
    ⊎ (input ≡ codes "ignore")
    ⊎ (input ≡ codes "handle")
IsUsage _ = ⊥

rejects_input :
    (os : Os) (prog input : Text) (p : Process)
    → ¬ IsUsage (prog ∷ input ∷ [])
    → main os (prog ∷ input ∷ []) p ≡ exited 1 (record p { output = usage ∷ p.output })
unfolding main parse_input
rejects_input os prog input p h = rw (
  differ input (codes "default") (λ e. h (inl e)),
  differ input (codes "mask") (λ e. h (inr (inl e))),
  differ input (codes "ignore") (λ e. h (inr (inr (inl e)))),
  differ input (codes "handle") (λ e. h (inr (inr (inr e)))),
)

-- Any other command line ends lab2/zad1 at once with status 1 and the usage as its only output,
-- whatever the kernel's calls would do.
pub main_rejects :
    (os : Os) (argv : List Text) (p : Process)
    → ¬ IsUsage argv
    → main os argv p ≡ exited 1 (record p { output = usage ∷ p.output })
unfolding main parse_input
main_rejects os [] p h = refl
main_rejects os (a ∷ []) p h = refl
main_rejects os (prog ∷ input ∷ []) p h = rejects_input os prog input p h
main_rejects os (a ∷ b ∷ c ∷ argv) p h = refl

-- The line that the handler writes names the signal: behind the fixed text stand the two decimal
-- digits of a signal's number, and a newline.
pub custom_handler_digits :
    (signo : ℕ)
    → signo < 100
    → (tens ones : ℕ) × (custom_handler signo
        ≡ message_head ++ ((b'0' + tens) ∷ (b'0' + ones) ∷ 10 ∷ []))
      × (tens * 10 + ones ≡ signo)
      × (tens < 10)
      × (ones < 10)
unfolding custom_handler
custom_handler_digits signo h =
    (signo / 10, signo % 10, refl, omega arith, omega arith, omega arith)

-- What becomes of the modes when a call fails; `b` and `c` tell of the calls that are not meant.
abbrev pub Failures : Text → List Line → Bool → Bool → Type 0
Failures prog out b c =
    let no_action : Os = record { sigaction_ok = false; sigprocmask_ok = b; sigpending_ok = c } in
    let no_mask : Os = record { sigaction_ok = b; sigprocmask_ok = false; sigpending_ok = c } in
    let no_pending : Os = record {
      sigaction_ok = true;
      sigprocmask_ok = true;
      sigpending_ok = false;
    } in
    let refused : Run (Unit {0}) = exited 1 (record (started out) { output = failure ∷ out }) in
    (main no_action (prog ∷ codes "default" ∷ []) (started out) ≡ refused)
    × (main no_action (prog ∷ codes "ignore" ∷ []) (started out) ≡ refused)
    × (main no_action (prog ∷ codes "handle" ∷ []) (started out) ≡ refused)
    × (main no_mask (prog ∷ codes "mask" ∷ []) (started out) ≡ refused)
    × (main no_pending (prog ∷ codes "mask" ∷ []) (started out)
        ≡ exited 1 (record (started out) {
          blocked = true;
          pending = true;
          output = failure ∷ count_up 5 6 (sending ∷ count_up 5 1 out);
        }))
    × (main no_pending (prog ∷ codes "ignore" ∷ []) (started out)
        ≡ exited 1 (record (started out) {
          disposition = ignored;
          output = failure ∷ count_up 5 6 (sending ∷ count_up 5 1 out);
        }))
    × (main no_pending (prog ∷ codes "handle" ∷ []) (started out)
        ≡ exited 1 (record (started out) {
          disposition = handled;
          output = failure ∷ count_up 5 6 (handled_line ∷ sending ∷ count_up 5 1 out);
        }))

-- A failing `sigaction` ends the modes "default", "ignore" and "handle" with status 1 before the
-- first round, and a failing `sigprocmask` the mode "mask"; a failing `sigpending` ends the modes
-- "mask", "ignore" and "handle" with status 1 in round 10.
pub main-Failures : (prog : Text) (out : List Line) (b c : Bool) → Failures prog out b c
unfolding main parse_input same_text mode_setup sig_default sig_mask sig_unblock sig_ignore
    sig_handle sigaction sigprocmask_block sigprocmask_unblock rounds round_body raise check_pending
main-Failures prog out b c = (refl, refl, refl, refl, refl, refl, refl)
