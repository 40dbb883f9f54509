-- ===== src/Forks/Tests.antt =====
-- The programs of lab1 at concrete command lines and schedules.
use sys_op.Prelude.{
  ℕ, zero, suc, inl, inr, ◌+◌, ◌≡◌, ◌^◌, ◌==◌, Bool, true, false, if◌then◌else◌, List, [], ◌∷◌,
  ◌++◌, Option, none, some, replicate, codes, arith, get_elem?, refl, All,
}
use sys_op.Http.Decimal.{print_nat}
use sys_op.Forks.Counter.{Counted, main-Counted}
use sys_op.Forks.Spawn.{Forks, main, successes, potomek, rodzic, main_children}
use mathlib.Core.List.{Perm}
use sys_op.Forks.Locked.{exited, child_at, step, run, launched}
use sys_op.Forks.Locked.Finish.{below, file_complete}
use sys_op.Forks.Locked.Ends.{HasExited, IsFair, run_rounds, children_exit}
use sys_op.Forks.Locked.Inv.{Tail, Tally, blocks, count}
use sys_op.Forks.Locked.Blocks.{file_blocks}

-- The second fork fails.
abbrev pids : ℕ → Option ℕ
pids i = if i == 1 then none else some (i + 900)

main-Counted_example : Counted pids (codes "./main.out") 12
main-Counted_example = main-Counted pids (codes "./main.out") 12 (omega arith)

-- The launcher's third call of fork fails.
abbrev forks : Forks
forks (false ∷ false ∷ []) = false
forks path = true

main_children_example :
    (main forks true (codes "./main.out" ∷ print_nat 4 ∷ print_nat 2 ∷ [])
      ≡ (0, [], replicate (successes forks [] 4) (replicate 2 potomek) ++ ((rodzic ∷ []) ∷ [])))
    × (main (λ path. true) false (codes "./main.out" ∷ print_nat 4 ∷ print_nat 2 ∷ [])
        ≡ (0, [], replicate (2 ^ 4) (rodzic ∷ [])))
main_children_example = main_children forks (codes "./main.out") 4 2 (omega arith) (omega arith)

three_children : successes forks [] 4 ≡ 3
unfolding successes
three_children = refl

-- Child 1 gets the lock first, and child 0 waits for it.
abbrev picks : List (ℕ × Bool)
picks =
    (0, true)
    ∷ (1, true)
    ∷ (1, true)
    ∷ (0, true)
    ∷ (1, true)
    ∷ (1, true)
    ∷ (1, true)
    ∷ (0, true)
    ∷ (0, true)
    ∷ []

file_blocks_example :
    let s = run 2 picks (launched 2) in
    (tail : List ℕ) × (s.file ≡ blocks 2 s.completed ++ tail)
    × Tail 2 s.holder s.children tail
    × ((j : ℕ) → Tally (get_elem? s.children j) (count j s.completed))
file_blocks_example = file_blocks 2 2 picks

-- Both children, the second of them twice; the second call of child 0 in the round fails if it can.
abbrev round : List (ℕ × Bool)
round = (1, true) ∷ (0, true) ∷ (1, true) ∷ (0, false) ∷ []

round-IsFair : IsFair 2 round
round-IsFair zero lt = inr (inl refl)
round-IsFair (suc zero) lt = inl refl
round-IsFair (suc (suc i)) lt = absurd (omega arith)

twelve_rounds-IsFair : All (IsFair 2) (replicate 12 round)
twelve_rounds-IsFair = (
  round-IsFair,
  (
    round-IsFair,
    (
      round-IsFair,
      (
        round-IsFair,
        (
          round-IsFair,
          (
            round-IsFair,
            (
              round-IsFair,
              (round-IsFair, (round-IsFair, (round-IsFair, (round-IsFair, (round-IsFair, tt))))),
            ),
          ),
        ),
      ),
    ),
  ),
)

children_exit_example :
    All HasExited (run_rounds 2 (replicate 12 round) (run 2 picks (launched 2))).children
children_exit_example =
    children_exit 2 2 picks (replicate 12 round) twelve_rounds-IsFair (omega arith)

-- Child 1 ends, then child 0.
abbrev all_picks : List (ℕ × Bool)
all_picks = picks ++ ((0, true) ∷ (0, true) ∷ (0, true) ∷ (0, true) ∷ (1, true) ∷ [])

both_done : All (λ c. c ≡ exited 0) (run 2 all_picks (launched 2)).children
unfolding run step child_at
both_done = (refl, (refl, tt))

file_complete_example :
    ((run 2 all_picks (launched 2)).file ≡ blocks 2 (run 2 all_picks (launched 2)).completed)
    × Perm (run 2 all_picks (launched 2)).completed (below 2)
    × ((run 2 all_picks (launched 2)).holder ≡ none)
file_complete_example = file_complete 2 2 all_picks both_done
