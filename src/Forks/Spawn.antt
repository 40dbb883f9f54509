-- ===== src/Forks/Spawn.antt =====
-- The launchers of lab1/zad2 and lab1/zad3, whose children become another program by execl. Output
-- goes to a terminal, line by line.
use sys_op.Prelude.{
  ℕ, zero, suc, Bool-cases, inl, inr, ◌+◌, ◌^◌, ◌<◌, ◌≡◌, refl, ap, ◌∙◌, Bool, true, false, ◌||◌,
  if◌then◌else◌, List, [], ◌∷◌, ◌++◌, Option, none, some, replicate, arith, codes, ◌==◌,
}
use sys_op.Http.Decimal.{Bytes, print_nat}
use sys_op.Forks.Strtol.{strtol, rounds, is_invalid, strtol-print_nat}

-- What a process prints on the way to its end, where it begins in the launcher.
pub data Line : Type 0 where
  wrong_count : Line  -- "ERROR: Nieprawidłowa liczba argumentów startowych."
  wrong_input : Line  -- "ERROR: Nieprawidłowy input."
  not_removed : Line  -- "ERROR: removing file unsuccessful."
  potomek : Line  -- "Potomek (pid)"
  rodzic : Line  -- "Rodzic  (pid)"

-- child.c of lab1/zad2: the exit status and the output.
unfoldable pub child_main : List Bytes → ℕ × List Line
child_main (prog ∷ text ∷ []) = (
  0,
  (if is_invalid (strtol text) then wrong_input ∷ [] else [])
      ++ replicate (rounds (strtol text)) potomek,
)
child_main argv = (1, wrong_count ∷ [])

-- Whether a call of `fork` succeeds, by the process that makes it and its round: for each earlier
-- round, the last one first, whether the process was the child of it.
abbrev pub Forks : Type 0
Forks = List Bool → Bool

-- The loop of `main` with `n` rounds to go in the process of `path`: what the processes print that
-- come out of it, itself last. `child` is what execl turns a child into; `none`: execl fails, and
-- the child goes on in the loop. Where `fork` fails the caller goes on as a parent does.
unfoldable pub spawn : Forks → Option (List Line) → List Bool → ℕ → List (List Line)
spawn forks child path zero = (rodzic ∷ []) ∷ []
spawn forks child path (suc n) =
    let behind = spawn forks child (false ∷ path) n in
    let born = spawn forks child (true ∷ path) n in
    if forks path then elim child [ none ↦ born ++ behind | some out ↦ out ∷ behind ] else behind

abbrev pub both_invalid : Bytes → Bytes → Bool
both_invalid n m = is_invalid (strtol n) || is_invalid (strtol m)

abbrev complaint : Bool → List Line
complaint true = wrong_input ∷ []
complaint false = []

-- main.c of lab1/zad2: the exit status, what the launcher prints first, and what each process
-- prints then, in no order. `found` tells whether ./child.out can be executed. A wrong number does
-- not end the launcher.
unfoldable pub main : Forks → Bool → List Bytes → ℕ × List Line × List (List Line)
main forks found (prog ∷ n ∷ m ∷ []) = (
  0,
  complaint (both_invalid n m),
  spawn forks (if found then some (child_main (codes "child.out" ∷ m ∷ [])).1 else none) []
      (rounds (strtol n)),
)
main forks found argv = (1, wrong_count ∷ [], [])

-- main.c of lab1/zad3, whose children print nothing: they write to the file that `rm` has removed.
-- `status` is how `rm` ends.
unfoldable pub main_removing : ℕ → Forks → Bool → List Bytes → ℕ × List Line × List (List Line)
main_removing status forks found (prog ∷ n ∷ m ∷ []) =
    let started = spawn forks (if found then some [] else none) [] (rounds (strtol n)) in
    if status == 0
    then (0, complaint (both_invalid n m), started)
    else (1, complaint (both_invalid n m) ++ (not_removed ∷ []), [])
main_removing status forks found argv = (1, wrong_count ∷ [], [])

replicate-append :
    {A : Type 0} (a b : ℕ) (x : A) → replicate a x ++ replicate b x ≡ replicate (a + b) x
replicate-append zero b x = ap (λ k. replicate k x) (omega arith)
replicate-append (suc a) b x =
    let one_more : suc (a + b) ≡ suc a + b = omega arith in
    ap (λ l. x ∷ l) (replicate-append a b x) ∙ ap (λ k. replicate k x) one_more

-- The calls of `fork` that succeed among `n` rounds of a process that is the child in none of them.
unfoldable pub successes : Forks → List Bool → ℕ → ℕ
successes forks path zero = 0
successes forks path (suc n) =
    let behind = successes forks (false ∷ path) n in if forks path then suc behind else behind

spawn-some :
    (forks : Forks) (out : List Line) (path : List Bool) (n : ℕ)
    → spawn forks (some out) path n ≡ replicate (successes forks path n) out ++ ((rodzic ∷ []) ∷ [])
unfolding spawn successes
spawn-some forks out path zero = refl
spawn-some forks out path (suc n) = elim (Bool-cases (forks path)) [
  | inl works ↦ rw works (ap (λ l. out ∷ l) (spawn-some forks out (false ∷ path) n))
  | inr fails ↦ rw fails (spawn-some forks out (false ∷ path) n)
]

spawn-none :
    (path : List Bool) (n : ℕ) → spawn (λ p. true) none path n ≡ replicate (2 ^ n) (rodzic ∷ [])
unfolding spawn
spawn-none path zero = refl
spawn-none path (suc n) =
    rw (spawn-none (true ∷ path) n, spawn-none (false ∷ path) n)
      (replicate-append (2 ^ n) (2 ^ n) (rodzic ∷ [])
        ∙ ap (λ k. replicate k (rodzic ∷ [])) (omega arith))

-- For two numbers `n` and `m` of the range of `int` on the command line of lab1/zad2: with
-- ./child.out in place, and whichever calls of fork fail, the launcher has one child for each of
-- its `n` calls of fork that succeeds; each child prints `m` lines, and the launcher its own
-- line. Without ./child.out, and if every fork succeeds, every child goes on as a launcher
-- itself: `n` rounds make 2 ^ n processes, each of which prints the line of the parent, and no
-- line of a child is printed.
pub main_children :
    (forks : Forks) (prog : Bytes) (n m : ℕ)
    → n < 2 ^ 31
    → m < 2 ^ 31
    → (main forks true (prog ∷ print_nat n ∷ print_nat m ∷ [])
        ≡ (0, [], replicate (successes forks [] n) (replicate m potomek) ++ ((rodzic ∷ []) ∷ [])))
      × (main (λ path. true) false (prog ∷ print_nat n ∷ print_nat m ∷ [])
          ≡ (0, [], replicate (2 ^ n) (rodzic ∷ [])))
unfolding main child_main
main_children forks prog n m hn hm =
    rw (strtol-print_nat n (omega arith), strtol-print_nat m (omega arith))
      (
        ap (λ l. (0, [], l)) (spawn-some forks (replicate m potomek) [] n),
        ap (λ l. (0, [], l)) (spawn-none [] n),
      )
