-- ===== src/Pipes/Slices.antt =====
-- lab3/zad1/main.c: for k = 1, …, n the interval [0, 1] is shared out to k children, each of which
-- writes the integral of its slice to its own pipe; the parent adds up what it reads. The times the
-- program measures are left out. The output goes to a terminal, line by line: the children end with
-- `exit`, which prints again what the parent's buffer holds at their fork where it is a file or a pipe.
pub mod Rows
use sys_op.Prelude.{
  ℕ, zero, suc, ◌+◌, ◌<◌, ◌≤◌, ◌^◌, ◌≡◌, refl, sym, ◌∙◌, ap, Bool, true, false, not, ◌||◌, ◌==◌,
  if◌then◌else◌, List, [], ◌∷◌, ◌++◌, Option, none, some, arith, Bool-cases, inl, inr,
}
use sys_op.Prelude.Double.{Double}
use sys_op.Http.Decimal.{Bytes, print_nat}
use sys_op.Forks.Strtol.{strtol, rounds, is_invalid, strtol-print_nat}
use sys_op.Pipes.Integrator.{rectangular_integration}
use sys_op.Pipes.Ends.{
  End, reading, writing, Family, close, close_below, Creation, created, no_pipe, no_fork, create,
  readings, writers, is_eof, create-tidy, is_eof-tidy, holds-close_below, close_below-readings,
}

module _ (fl : Double) where
  open fl use {D, of_int, add, mul, div, ltb, eqb}

  -- What the program meets: `strtod`, by the value and the rest of the text (none: no conversion),
  -- whether the calls of round k succeed, for child i, and the steps each integration is given.
  pub record World : Type 0 where
    pub strtod : Bytes → Option (D × Bytes)
    pub malloc_ok : ℕ → Bool
    pub pipe_ok : ℕ → ℕ → Bool
    pub fork_ok : ℕ → ℕ → Bool
    pub write_ok : ℕ → ℕ → Bool
    pub fuel : ℕ

  pub data Line : Type 0 where
    usage : Line
    bad_dx : Line
    bad_n : Line
    malloc_failed : Line
    pipe_failed : Line
    fork_failed : Line
    row : ℕ → D → Line  -- the number of the processes and the result

  -- `blocked`: the parent waits in `read` for ever.
  pub data Ending : Type 0 where
    exited : ℕ → Ending
    blocked : Ending

  -- The integral that child `i` computes.
  unfoldable pub partial_sum : ℕ → D → D → ℕ → Option D
  partial_sum fuel dx slice_width i =
      rectangular_integration fl fuel (mul (of_int i) slice_width)
        (mul (of_int (i + 1)) slice_width) dx

  -- What comes through a pipe: a number, nothing from a child whose `write` fails, or never anything.
  pub data Answer : Type 0 where
    sent : D → Answer
    gone : Answer
    silent : Answer

  abbrev pub answer : Bool → Option D → Answer
  answer ok none = silent
  answer true (some s) = sent s
  answer false (some s) = gone

  -- total_sum after the `read`; `none`: it blocks. A read of nothing ends at the end of the file.
  abbrev pub read_sum : Answer → Bool → D → Option D
  read_sum (sent s) eof total = some (add total s)
  read_sum gone true total = some total
  read_sum gone false total = none
  read_sum silent eof total = none

  abbrev pub after_read : Option D → (D → Option (D × Family)) → Option (D × Family)
  after_read none rest = none
  after_read (some total) rest = rest total

  -- The parent's loop of `read` and `close` with `n` children to go, from number `i` on.
  unfoldable pub collect : (ℕ → Answer) → ℕ → ℕ → D → Family → Option (D × Family)
  collect answers zero i total s = some (total, s)
  collect answers (suc n) i total s =
      after_read (read_sum (answers i) (is_eof i s) total)
        (λ t. collect answers n (i + 1) t (record s { parent = close (reading i) s.parent }))

  pub data Round : Type 0 where
    counted : D → List End → Round
    failed : Line → Round
    stuck : Round

  abbrev pub collected : Option (D × Family) → Round
  collected none = stuck
  collected (some (total, s)) = counted total s.parent

  abbrev pub after_create : World → D → ℕ → Creation → Round
  after_create w dx k no_pipe = failed pipe_failed
  after_create w dx k no_fork = failed fork_failed
  after_create w dx k (created s) = collected (
      collect (λ i. answer (w.write_ok k i) (partial_sum w.fuel dx (div (of_int 1) (of_int k)) i)) k
        0 (of_int 0) s)

  -- One round of the main loop, with the parent's descriptors.
  unfoldable pub round : World → D → ℕ → List End → Round
  round w dx k fds =
      let family =
        create (w.pipe_ok k) (w.fork_ok k) k 0 (record { parent = fds; children = [] }) in
      if w.malloc_ok k then after_create w dx k family else failed malloc_failed

  abbrev pub then_rows : ℕ → Round → (List End → List Line × Ending) → List Line × Ending
  then_rows k (counted total fds) rest = (row k total ∷ (rest fds).0, (rest fds).1)
  then_rows k (failed line) rest = (line ∷ [], exited 1)
  then_rows k stuck rest = ([], blocked)

  -- The main loop with `n` rounds to go, from k on.
  unfoldable pub main_loop : World → D → ℕ → ℕ → List End → List Line × Ending
  main_loop w dx zero k fds = ([], exited 0)
  main_loop w dx (suc n) k fds = then_rows k (round w dx k fds) (main_loop w dx n (k + 1))

  -- dx with the default for 0.
  unfoldable pub precision : D → D
  precision dx = if eqb dx (of_int 0) then div (of_int 1) (of_int 1_000_000_000) else dx

  -- What `main` does once `strtod` has answered.
  abbrev pub with_dx : World → Bytes → Option (D × Bytes) → List Line × Ending
  with_dx w n none = (bad_dx ∷ [], exited 1)
  with_dx w n (some (dx, c ∷ rest)) = (bad_dx ∷ [], exited 1)
  with_dx w n (some (dx, [])) =
      if ltb dx (of_int 0)
      then (bad_dx ∷ [], exited 1)
      else if is_invalid (strtol n) || (rounds (strtol n) == 0)
      then (bad_n ∷ [], exited 1)
      else main_loop w (precision dx) (rounds (strtol n)) 1 []

  unfoldable pub main : World → List Bytes → List Line × Ending
  main w (prog ∷ dx ∷ n ∷ []) = with_dx w n (w.strtod dx)
  main w argv = (usage ∷ [], exited 1)
