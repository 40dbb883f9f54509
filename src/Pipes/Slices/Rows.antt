-- ===== src/Pipes/Slices/Rows.antt =====
-- What lab3/zad1/main.c prints when every integration ends.
use sys_op.Prelude.{ℕ, zero, suc, ◌+◌, ◌≡◌, Bool, true, if◌then◌else◌, List, [], ◌∷◌, Option}
use sys_op.Prelude.Double.{Double}
use sys_op.Pipes.Ends.{Family, close_below, readings, writers}
use sys_op.Pipes.Slices.{World, Line, row, partial_sum}

module _ (fl : Double) where
  open fl use {D, of_int, add, mul, div, ltb, eqb}

  -- The sums of the `n` children from `i` on whose `write` succeeds, added to `total` in the order of
  -- the children.
  unfoldable pub total_of : (ℕ → Bool) → (ℕ → D) → ℕ → ℕ → D → D
  total_of ok sum zero i total = total
  total_of ok sum (suc n) i total =
      total_of ok sum n (i + 1) (if ok i then add total (sum i) else total)

  -- The rows of `n` rounds, from k on.
  unfoldable pub table : (ℕ → ℕ → Bool) → (ℕ → ℕ → D) → ℕ → ℕ → List (Line fl)
  table ok sum zero k = []
  table ok sum (suc n) k = row k (total_of (ok k) (sum k) k 0 (of_int 0)) ∷ table ok sum n (k + 1)

  abbrev left_with : ℕ → ℕ → Family
  left_with i k = record { parent = close_below i (readings k); children = writers k }

  abbrev slice : World fl → D → ℕ → ℕ → Option D
  slice w dx k i = partial_sum fl w.fuel dx (div (of_int 1) (of_int k)) i

  -- Every call of the system that the parent makes succeeds.
  pub record IsWorking (w : World fl) : Type 0 where
    pub mallocs : (k : ℕ) → w.malloc_ok k ≡ true
    pub pipes : (k i : ℕ) → w.pipe_ok k i ≡ true
    pub forks : (k i : ℕ) → w.fork_ok k i ≡ true
