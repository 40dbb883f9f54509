-- ===== src/Signals/Modes.antt =====
-- lab2/zad1/main.c: the mode of the command line, and how it is set up.
use sys_op.Prelude.{ℕ, List, [], ◌∷◌, Bool, true, false, if◌then◌else◌, codes, ◌==◌, ◌&&◌}
use sys_op.Signals.Kernel.{
  Program, ◌>>=◌, ◌>>◌, pure, print, exit, Os, default_action, ignored, handled, usage, bad_mode,
  failure, sigaction, sigprocmask_block, sigprocmask_unblock,
}

abbrev pub Text : Type 0
Text = List ℕ

-- strcmp(a, b) == 0
unfoldable pub same_text : Text → Text → Bool
same_text [] [] = true
same_text (a ∷ s) (b ∷ t) = a == b && same_text s t
same_text _ _ = false

-- `argv` has its program's name first, and `argc` is its length.
unfoldable pub parse_input : List Text → Program ℕ
parse_input (prog ∷ input ∷ []) =
    if same_text input (codes "default")
    then pure b'd'
    else if same_text input (codes "mask")
    then pure b'm'
    else if same_text input (codes "ignore")
    then pure b'i'
    else if same_text input (codes "handle")
    then pure b'h'
    else (do print usage; exit 1)
parse_input _ = do print usage; exit 1

-- A call that failed ends the program.
abbrev check : Program Bool → Program (Unit {0})
check call = do r ← call; if r then pure tt else (do print failure; exit 1)

unfoldable pub sig_default : Os → Program (Unit {0})
sig_default os = check (sigaction os default_action)

unfoldable pub sig_mask : Os → Program (Unit {0})
sig_mask os = check (sigprocmask_block os)

unfoldable pub sig_unblock : Os → Program (Unit {0})
sig_unblock os = check (sigprocmask_unblock os)

unfoldable pub sig_ignore : Os → Program (Unit {0})
sig_ignore os = check (sigaction os ignored)

unfoldable pub sig_handle : Os → Program (Unit {0})
sig_handle os = check (sigaction os handled)

unfoldable pub mode_setup : Os → ℕ → Program (Unit {0})
mode_setup os mode =
    if mode == b'd'
    then sig_default os
    else if mode == b'm'
    then sig_mask os
    else if mode == b'i'
    then sig_ignore os
    else if mode == b'h'
    then sig_handle os
    else print bad_mode
