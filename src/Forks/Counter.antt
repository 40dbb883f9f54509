-- ===== src/Forks/Counter.antt =====
-- lab1/zad1: a counter that children increase, by main.c with fork and by main_vfork.c with vfork.
-- Output goes to a terminal, line by line, so that no `_exit` loses any.
use sys_op.Prelude.{
  ℕ, zero, suc, ◌+◌, ◌%◌, ◌<◌, ◌≤◌, ◌≡◌, refl, sym, ap, ap₂, ◌∙◌, map, append-nil, append_assoc,
  Bool, true, false, List, [], ◌∷◌, ◌++◌, Option, none, some, replicate, length, arith, ◌^◌,
}
use sys_op.Http.Decimal.{Bytes, print_nat}
use sys_op.Forks.Strtol.{strtol, rounds, is_invalid, strtol-print_nat}

pub data Line : Type 0 where
  wrong_count : Line  -- "ERROR: Nieprawidłowa liczba argumentów startowych."
  wrong_input : Line  -- "ERROR: Nieprawidłowy input."
  child_line : (pid : ℕ) → Line  -- "Potomek (pid)"
  parent_line : (zmienna_globalna : ℕ) → Line  -- "Rodzic (pid) zmiennaGlobalna=…"

-- The memory of a process, which is `zmiennaGlobalna`, and what it has printed so far.
pub record Process : Type 0 where
  pub zmienna_globalna : ℕ
  pub output : List Line

-- A child behind `fork` or `vfork`, to its `_exit`, in the memory that it is given: M is 3, and an
-- int has 32 bits.
unfoldable pub child_body : (pid : ℕ) → Process → Process
child_body pid s = record {
  zmienna_globalna = (s.zmienna_globalna + 1) % 2 ^ 32;
  output = s.output ++ replicate 3 (child_line pid);
}

-- One round of the first loop of main.c: the parent behind it and its children. A child runs on a
-- copy of the parent's memory. `none`: `fork` fails, of which the loop takes no note.
abbrev pub fork_round : Option ℕ → Process → Process × List Process
fork_round none s = (s, [])
fork_round (some pid) s = (s, child_body pid (record s { output = [] }) ∷ [])

-- The children of one round and of those behind it, and the parent behind them all.
abbrev pub with_born : List Process → Process × List Process → Process × List Process
with_born born (s, children) = (s, born ++ children)

-- Round `i` and the `n` behind it, as `fork` gives the children their process numbers.
unfoldable pub fork_loop : (ℕ → Option ℕ) → Process → ℕ → ℕ → Process × List Process
fork_loop pids s i zero = (s, [])
fork_loop pids s i (suc n) =
    let (t, born) = fork_round (pids i) s in with_born born (fork_loop pids t (i + 1) n)

-- One round of the first loop of main_vfork.c: a child runs in the memory of its parent, which
-- sleeps until the child's `_exit`.
abbrev pub vfork_round : Option ℕ → Process → Process
vfork_round none s = s
vfork_round (some pid) s = child_body pid s

unfoldable pub vfork_loop : (ℕ → Option ℕ) → Process → ℕ → ℕ → Process
vfork_loop pids s i zero = s
vfork_loop pids s i (suc n) = vfork_loop pids (vfork_round (pids i) s) (i + 1) n

-- The last line of the parent.
unfoldable pub report : Process → Process
report s = record s { output = s.output ++ (parent_line s.zmienna_globalna ∷ []) }

abbrev pub complaint : Bool → List Line
complaint true = wrong_input ∷ []
complaint false = []

-- The parent when its loop begins.
abbrev pub parsed : Bytes → Process
parsed text = record { zmienna_globalna = 1; output = complaint (is_invalid (strtol text)) }

-- main.c: the exit status, the parent and its children.
unfoldable pub main_fork : (ℕ → Option ℕ) → List Bytes → ℕ × Process × List Process
main_fork pids (prog ∷ text ∷ []) =
    let (s, children) = fork_loop pids (parsed text) 0 (rounds (strtol text)) in
    (0, report s, children)
main_fork pids argv = (1, record { zmienna_globalna = 1; output = wrong_count ∷ [] }, [])

-- main_vfork.c: the exit status, and the parent with the output of its children.
unfoldable pub main_vfork : (ℕ → Option ℕ) → List Bytes → ℕ × Process
main_vfork pids (prog ∷ text ∷ []) =
    (0, report (vfork_loop pids (parsed text) 0 (rounds (strtol text))))
main_vfork pids argv = (1, record { zmienna_globalna = 1; output = wrong_count ∷ [] })

-- A list with one process number more, if there is one.
abbrev pub with_pid : Option ℕ → List ℕ → List ℕ
with_pid none pids = pids
with_pid (some pid) pids = pid ∷ pids

-- The process numbers that the rounds from `i` on get.
pub created : (ℕ → Option ℕ) → ℕ → ℕ → List ℕ
created pids i zero = []
created pids i (suc n) = let rest = created pids (i + 1) n in with_pid (pids i) rest

-- Three lines of each child, child after child.
unfoldable pub blocks : List ℕ → List Line
blocks [] = []
blocks (pid ∷ pids) = replicate 3 (child_line pid) ++ blocks pids

-- What main.c and main_vfork.c do for the number `n` on the command line.
pub record Counted (pids : ℕ → Option ℕ) (prog : Bytes) (n : ℕ) : Type 0 where
  pub forked : main_fork pids (prog ∷ print_nat n ∷ []) ≡ (
    0,
    record { zmienna_globalna = 1; output = parent_line 1 ∷ [] },
    map
        (λ pid. record { zmienna_globalna = 2; output = replicate 3 (child_line pid) })
        (created pids 0 n),
  )
  pub vforked : main_vfork pids (prog ∷ print_nat n ∷ []) ≡ (
    0,
    record {
      zmienna_globalna = 1 + length (created pids 0 n);
      output = blocks (created pids 0 n) ++ (parent_line (1 + length (created pids 0 n)) ∷ []);
    },
  )

-- A child that starts from the counter's value `g`.
abbrev copied : ℕ → ℕ → Process
copied g pid = record { zmienna_globalna = (g + 1) % 2 ^ 32; output = replicate 3 (child_line pid) }

fork_loop-created :
    (pids : ℕ → Option ℕ) (s : Process) (i n : ℕ)
    → fork_loop pids s i n ≡ (s, map (copied s.zmienna_globalna) (created pids i n))
unfolding fork_loop created child_body
fork_loop-created pids s i zero = refl
fork_loop-created pids s i (suc n) = grown (pids i) (fork_loop-created pids s (i + 1) n)
  where
    grown :
        (o : Option ℕ)
        → fork_loop pids s (i + 1) n ≡ (s, map (copied s.zmienna_globalna) (created pids (i + 1) n))
        → with_born (fork_round o s).1 (fork_loop pids (fork_round o s).0 (i + 1) n)
          ≡ (s, map (copied s.zmienna_globalna) (with_pid o (created pids (i + 1) n)))
    grown none h = h
    grown (some pid) h = ap (λ r. (r.0, copied s.zmienna_globalna pid ∷ r.1)) h

-- A state of the parent of main_vfork.c, `k` children later.
after_children : ℕ → List Line → List ℕ → Process
after_children g out pids = record {
  zmienna_globalna = g + length pids;
  output = out ++ blocks pids;
}

vfork-with_pid :
    (o : Option ℕ) (g : ℕ) (out : List Line) (pids : List ℕ)
    → g + 1 < 2 ^ 32
    → after_children
        (vfork_round o (record { zmienna_globalna = g; output = out })).zmienna_globalna
        (vfork_round o (record { zmienna_globalna = g; output = out })).output
        pids
      ≡ after_children g out (with_pid o pids)
unfolding after_children blocks child_body
vfork-with_pid none g out pids lt = refl
vfork-with_pid (some pid) g out pids lt =
    ap₂ (λ v o. record { zmienna_globalna = v; output = o }) (omega arith)
      (append_assoc out (replicate 3 (child_line pid)) (blocks pids))

vfork_round-le :
    (o : Option ℕ) (s : Process)
    → s.zmienna_globalna + 1 < 2 ^ 32
    → (vfork_round o s).zmienna_globalna ≤ s.zmienna_globalna + 1
unfolding child_body
vfork_round-le none s lt = omega arith
vfork_round-le (some pid) s lt = omega arith

vfork_loop-created :
    (pids : ℕ → Option ℕ) (s : Process) (i n : ℕ)
    → s.zmienna_globalna + n < 2 ^ 32
    → vfork_loop pids s i n ≡ after_children s.zmienna_globalna s.output (created pids i n)
unfolding vfork_loop created after_children blocks
vfork_loop-created pids s i zero lt =
    ap₂ (λ v o. record { zmienna_globalna = v; output = o }) (omega arith)
      (sym (append-nil s.output))
vfork_loop-created pids s i (suc n) lt =
    vfork_loop-created pids (vfork_round (pids i) s) (i + 1) n
      (omega (arith, vfork_round-le (pids i) s (omega arith)))
    ∙ vfork-with_pid (pids i) s.zmienna_globalna s.output (created pids (i + 1) n) (omega arith)

-- For each number `n` on the command line for which `n` + 1 is in the range of `int`, and whichever
-- calls of fork succeed: in main.c each child leaves its counter at 2 and prints its three lines, and
-- the parent prints the counter's first value 1. In main_vfork.c the parent prints 1 and the number
-- of its children, whose lines stand before it, the three of each child together, in the order of
-- the children.
pub main-Counted :
    (pids : ℕ → Option ℕ) (prog : Bytes) (n : ℕ) → n + 1 < 2 ^ 31 → Counted pids prog n
unfolding main_fork main_vfork report after_children
main-Counted pids prog n lt =
    let read = strtol-print_nat n (omega arith) in
    record {
      forked = rw read (
          ap (λ r. (0, report r.0, r.1))
            (fork_loop-created pids (record { zmienna_globalna = 1; output = [] }) 0 n));
      vforked = rw read (
          ap (λ s. (0, report s))
            (vfork_loop-created pids (record { zmienna_globalna = 1; output = [] }) 0 n
              (omega arith)));
    }
