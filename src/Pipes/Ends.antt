-- ===== src/Pipes/Ends.antt =====
-- The pipe descriptors of lab3/zad1/main.c: who holds which end after the loop of `fork`.
use sys_op.Prelude.{
  ℕ, zero, suc, ◌+◌, ◌<◌, ◌≤◌, ◌≡◌, refl, ◌∙◌, ap, ap₂, Bool, true, false, not, ◌&&◌, ◌||◌, ◌==◌,
  if◌then◌else◌, List, [], ◌∷◌, arith, Bool-cases, inl, inr,
}

-- fd[i][0] and fd[i][1].
pub data End : Type 0 where
  reading : ℕ → End
  writing : ℕ → End

abbrev pub same : End → End → Bool
same (reading i) (reading j) = i == j
same (reading i) (writing j) = false
same (writing i) (reading j) = false
same (writing i) (writing j) = i == j

-- The open descriptors of the parent and of each child, by its number, the latest first.
pub record Family : Type 0 where
  pub parent : List End
  pub children : List (ℕ × List End)

unfoldable pub close : End → List End → List End
close e [] = []
close e (f ∷ fds) = let rest = close e fds in if same e f then rest else f ∷ rest

-- for (j = 0; j < i; ++j) close(fd[j][0])
unfoldable pub close_below : ℕ → List End → List End
close_below zero fds = fds
close_below (suc j) fds = close (reading j) (close_below j fds)

-- What the child keeps open of the descriptors it inherits.
abbrev pub child_fds : ℕ → List End → List End
child_fds i fds = close_below i (close (reading i) fds)

-- pipe(fd[i]), fork(), and the closing on both sides.
abbrev pub start_child : ℕ → Family → Family
start_child i s =
    let both = writing i ∷ reading i ∷ s.parent in
    record { parent = close (writing i) both; children = (i, child_fds i both) ∷ s.children }

pub data Creation : Type 0 where
  created : Family → Creation
  no_pipe : Creation
  no_fork : Creation

-- The loop with `n` children to go, from number `i` on.
unfoldable pub create : (ℕ → Bool) → (ℕ → Bool) → ℕ → ℕ → Family → Creation
create pipe_ok fork_ok zero i s = created s
create pipe_ok fork_ok (suc n) i s =
    let rest = create pipe_ok fork_ok n (i + 1) (start_child i s) in
    if not (pipe_ok i) then no_pipe else if not (fork_ok i) then no_fork else rest

-- The descriptors as they are meant to be: the parent reads from `i` pipes, each child writes to
-- its own.
unfoldable pub readings : ℕ → List End
readings zero = []
readings (suc i) = reading i ∷ readings i

unfoldable pub writers : ℕ → List (ℕ × List End)
writers zero = []
writers (suc i) = (i, writing i ∷ []) ∷ writers i

close-readings : (i j : ℕ) → i ≤ j → close (reading j) (readings i) ≡ readings i
unfolding close readings
close-readings zero j le = refl
close-readings (suc i) j le = rw (close-readings i j (omega arith)) (ground arith)

close-writing : (i j : ℕ) → close (writing j) (readings i) ≡ readings i
unfolding close readings
close-writing zero j = refl
close-writing (suc i) j = ap (λ l. reading i ∷ l) (close-writing i j)

close_below-skip :
    (i : ℕ) (e : End) (fds : List End)
    → ((j : ℕ) → j < i → same (reading j) e ≡ false)
    → close_below i (e ∷ fds) ≡ e ∷ close_below i fds
unfolding close close_below
close_below-skip zero e fds other = refl
close_below-skip (suc i) e fds other =
    rw (close_below-skip i e fds (λ j lt. other j (omega arith)), other i (omega arith)) refl

-- Closing each of the readings leaves none.
pub close_below-readings : (i : ℕ) → close_below i (readings i) ≡ []
unfolding close close_below readings
close_below-readings zero = refl
close_below-readings (suc i) =
    let skip : close_below i (reading i ∷ readings i) ≡ reading i ∷ close_below i (readings i) =
      close_below-skip i (reading i) (readings i) (λ j lt. ground arith) in
    rw (skip, close_below-readings i) (ground arith)

child_fds-writing : (i : ℕ) → child_fds i (writing i ∷ reading i ∷ readings i) ≡ writing i ∷ []
unfolding close
child_fds-writing i =
    let kept : close (reading i) (writing i ∷ reading i ∷ readings i) ≡ writing i ∷ readings i =
      rw (close-readings i i (omega arith)) (ground arith) in
    ap (close_below i) kept
    ∙ close_below-skip i (writing i) (readings i) (λ j lt. refl)
    ∙ ap (λ l. writing i ∷ l) (close_below-readings i)

abbrev pub tidy : ℕ → Family
tidy i = record { parent = readings i; children = writers i }

parent-readings :
    (i : ℕ) → close (writing i) (writing i ∷ reading i ∷ readings i) ≡ reading i ∷ readings i
unfolding close
parent-readings i = rw (close-writing i i) (ground arith)

start_child-tidy : (i : ℕ) → start_child i (tidy i) ≡ tidy (suc i)
unfolding readings writers
start_child-tidy i =
    ap₂ (λ p c. record { parent = p; children = (i, c) ∷ writers i }) (parent-readings i)
      (child_fds-writing i)

create-tidy_from :
    (pipe_ok fork_ok : ℕ → Bool) (n i : ℕ)
    → ((j : ℕ) → pipe_ok j ≡ true)
    → ((j : ℕ) → fork_ok j ≡ true)
    → create pipe_ok fork_ok n i (tidy i) ≡ created (tidy (i + n))
unfolding create
create-tidy_from pipe_ok fork_ok zero i pipes forks = ap (λ k. created (tidy k)) (omega arith)
create-tidy_from pipe_ok fork_ok (suc n) i pipes forks =
    let rest : create pipe_ok fork_ok n (i + 1) (start_child i (tidy i))
        ≡ created (tidy (i + suc n)) =
      ap (create pipe_ok fork_ok n (i + 1)) (start_child-tidy i ∙ ap tidy next)
      ∙ create-tidy_from pipe_ok fork_ok n (i + 1) pipes forks
      ∙ ap (λ k. created (tidy k)) shift in
    rw (pipes i, forks i) rest
  where
    next : suc i ≡ i + 1
    next = omega arith

    shift : i + 1 + n ≡ i + suc n
    shift = omega arith

-- When every `pipe` and `fork` succeeds, the parent is left with the reading ends of the `k` pipes
-- and no writing end, and each of the `k` children with the writing end of its own pipe alone.
pub create-tidy :
    (pipe_ok fork_ok : ℕ → Bool) (k : ℕ)
    → ((j : ℕ) → pipe_ok j ≡ true)
    → ((j : ℕ) → fork_ok j ≡ true)
    → create pipe_ok fork_ok k 0 (record { parent = []; children = [] })
      ≡ created (record { parent = readings k; children = writers k })
unfolding readings writers
create-tidy pipe_ok fork_ok k pipes forks =
    let all : 0 + k ≡ k = omega arith in
    create-tidy_from pipe_ok fork_ok k 0 pipes forks ∙ ap (λ m. created (tidy m)) all

-- Whether a read from pipe `i` meets the end of the file once child `i` is gone: nobody else holds
-- its writing end.
unfoldable pub holds : End → List End → Bool
holds e [] = false
holds e (f ∷ fds) = same e f || holds e fds

unfoldable pub others_closed : ℕ → List (ℕ × List End) → Bool
others_closed i [] = true
others_closed i ((j, fds) ∷ children) =
    (j == i || not (holds (writing i) fds)) && others_closed i children

abbrev pub is_eof : ℕ → Family → Bool
is_eof i s = not (holds (writing i) s.parent) && others_closed i s.children

others_closed-writers : (i k : ℕ) → others_closed i (writers k) ≡ true
unfolding others_closed writers holds
others_closed-writers i zero = refl
others_closed-writers i (suc k) = rw (others_closed-writers i k) (ground arith)

-- The parent meets the end of a pipe whose child is gone, whatever it has closed itself.
pub is_eof-tidy :
    (i k : ℕ) (fds : List End)
    → holds (writing i) fds ≡ false
    → is_eof i (record { parent = fds; children = writers k }) ≡ true
is_eof-tidy i k fds none_held = rw (none_held, others_closed-writers i k) refl

-- None of the parent's readings is a writing end.
pub holds-readings : (i k : ℕ) → holds (writing i) (readings k) ≡ false
unfolding holds readings
holds-readings i zero = refl
holds-readings i (suc k) = holds-readings i k

holds-close :
    (i j : ℕ) (fds : List End)
    → holds (writing i) fds ≡ false
    → holds (writing i) (close (reading j) fds) ≡ false
unfolding holds close
holds-close i j [] h = refl
holds-close i j (reading k ∷ fds) h = elim (Bool-cases (j == k)) [
  | inl e ↦ rw e (holds-close i j fds h)
  | inr e ↦ rw e (holds-close i j fds h)
]
holds-close i j (writing k ∷ fds) h = ground (arith, h, holds-close i j fds)

pub holds-close_below : (i n k : ℕ) → holds (writing i) (close_below n (readings k)) ≡ false
unfolding close_below
holds-close_below i zero k = holds-readings i k
holds-close_below i (suc n) k =
    holds-close i n (close_below n (readings k)) (holds-close_below i n k)
