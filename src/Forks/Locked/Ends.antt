-- ===== src/Forks/Locked/Ends.antt =====
-- No child of lab1/zad3 waits for ever: how much work the children have left.
use sys_op.Prelude.{
  ℕ, zero, suc, ◌+◌, ◌*◌, ◌≤◌, ◌<◌, ◌≡◌, refl, sym, subst, Bool, true, false, List, [], ◌∷◌, Option,
  none, some, get_elem?, set, arith, All, length, total, total-set, total_find, All-eq_zero,
  total-replicate, All-map, dec_lt, ◌⊎◌, inl, inr, ap, ◌∙◌, length-replicate,
}
use sys_op.Forks.Locked.{
  Child, opening, locking, writing, closing, exited, Disk, take_lock, child_at, call, step, run,
  launched,
}
use sys_op.Forks.Locked.Inv.{Inv, holder-writing}
use sys_op.Forks.Locked.Blocks.{run-Inv, launched-Inv}
use sys_op.Forks.Locked.Finish.{elem_at, run-length}

-- The calls that a child has left, where each writes `m` lines.
abbrev weight : ℕ → Child → ℕ
weight m opening = m + 4
weight m locking = m + 3
weight m (writing left) = left + 2
weight m closing = 1
weight m (exited status) = 0

abbrev work : ℕ → Disk → ℕ
work m s = total (weight m) s.children

-- A child that can make its call brings the work down.
moves :
    (m i : ℕ) (c d : Child) (s : Disk)
    → get_elem? s.children i ≡ some c
    → weight m d < weight m c
    → total (weight m) (set s.children i d) < work m s
moves m i c d s at lt = omega (arith, total-set (weight m) s.children i c d at)

child_at-work :
    (m i : ℕ) (ok : Bool) (c : Child) (s : Disk)
    → get_elem? s.children i ≡ some c
    → (c ≡ locking → s.holder ≡ none)
    → 0 < weight m c
    → work m (child_at m i ok c s) < work m s
unfolding child_at
child_at-work m i true opening s at free lt = moves m i opening locking s at (omega arith)
child_at-work m i false opening s at free lt = moves m i opening (exited 1) s at (omega arith)
child_at-work m i false locking s at free lt = moves m i locking (exited 1) s at (omega arith)
child_at-work m i true locking s at free lt =
    rw (free refl) (moves m i locking (writing m) s at (omega arith))
child_at-work m i ok (writing (suc left)) s at free lt =
    moves m i (writing (suc left)) (writing left) s at (omega arith)
child_at-work m i true (writing zero) s at free lt =
    moves m i (writing 0) closing s at (omega arith)
child_at-work m i false (writing zero) s at free lt =
    moves m i (writing 0) (exited 1) s at (omega arith)
child_at-work m i ok closing s at free lt = moves m i closing (exited 0) s at (omega arith)
child_at-work m i ok (exited status) s at free lt = absurd (omega arith)

-- When there is work left some child brings it down, whether its call succeeds or not.
Works : ℕ → Disk → Type 0
Works m s =
    (i : ℕ) × (c : Child) × (get_elem? s.children i ≡ some c)
    × ((ok : Bool) → work m (step m s (i, ok)) < work m s)

picked :
    (m i : ℕ) (c : Child) (s : Disk)
    → get_elem? s.children i ≡ some c
    → (c ≡ locking → s.holder ≡ none)
    → 0 < weight m c
    → Works m s
unfolding Works step
picked m i c s at free lt = (
  i,
  c,
  at,
  λ ok.
      subst (λ o. work m (call m i ok o s) < work m s) (sym at)
        (child_at-work m i ok c s at free lt),
)

child-Works : (m : ℕ) (s : Disk) (o : Option ℕ) → s.holder ≡ o → Inv m s → 0 < work m s → Works m s
child-Works m s (some h) e inv lt =
    let (k, left, at, _, _) = holder-writing m h s.holder s.children inv.tail inv.tail_is e in
    picked m h (writing left) s at (λ l. absurd (cc)) (omega arith)
child-Works m s none e inv lt =
    let (i, c, at, heavy) = total_find (weight m) s.children lt in picked m i c s at (λ l. e) heavy

-- A child that has come to its end.
abbrev pub HasExited : Child → Type 0
HasExited c = (status : ℕ) × (c ≡ exited status)

idle-HasExited : (m : ℕ) (c : Child) → weight m c ≡ 0 → HasExited c
idle-HasExited m (exited status) e = (status, refl)
idle-HasExited m opening e = absurd (omega (arith, e))
idle-HasExited m locking e = absurd (omega (arith, e))
idle-HasExited m (writing left) e = absurd (omega (arith, e))
idle-HasExited m closing e = absurd (omega (arith, e))

-- A call brings the work down or changes nothing.
Moved : ℕ → Disk → ℕ × Bool → Type 0
Moved m s pick = (work m (step m s pick) < work m s) ⊎ (step m s pick ≡ s)

child_at-moves :
    (m i : ℕ) (ok : Bool) (c : Child) (s : Disk)
    → get_elem? s.children i ≡ some c
    → (work m (child_at m i ok c s) < work m s) ⊎ (child_at m i ok c s ≡ s)
unfolding child_at
child_at-moves m i ok opening s at =
    inl (child_at-work m i ok opening s at (λ e. absurd (cc)) (omega arith))
child_at-moves m i false locking s at = inl (moves m i locking (exited 1) s at (omega arith))
child_at-moves m i true locking s at = waits s.holder refl
  where
    waits :
        (o : Option ℕ)
        → s.holder ≡ o
        → (work m (take_lock m i o s) < work m s) ⊎ (take_lock m i o s ≡ s)
    waits none e = inl (moves m i locking (writing m) s at (omega arith))
    waits (some h) e = inr refl
child_at-moves m i ok (writing left) s at =
    inl (child_at-work m i ok (writing left) s at (λ e. absurd (cc)) (omega arith))
child_at-moves m i ok closing s at =
    inl (child_at-work m i ok closing s at (λ e. absurd (cc)) (omega arith))
child_at-moves m i ok (exited status) s at = inr refl

call-moves :
    (m i : ℕ) (ok : Bool) (o : Option Child) (s : Disk)
    → get_elem? s.children i ≡ o
    → (work m (call m i ok o s) < work m s) ⊎ (call m i ok o s ≡ s)
call-moves m i ok none s at = inr refl
call-moves m i ok (some c) s at = child_at-moves m i ok c s at

step-Moved : (m : ℕ) (s : Disk) (pick : ℕ × Bool) → Moved m s pick
unfolding Moved step
step-Moved m s (i, ok) = call-moves m i ok (get_elem? s.children i) s refl

-- The calls bring the work down, or each of them changes nothing.
run-moves :
    (m : ℕ) (picks : List (ℕ × Bool)) (s : Disk)
    → (work m (run m picks s) < work m s)
      ⊎ ((run m picks s ≡ s) × All (λ pick. step m s pick ≡ s) picks)
unfolding run Moved
run-moves m [] s = inr (refl, tt)
run-moves m (pick ∷ picks) s = elim (step-Moved m s pick) [
  | inl less ↦ inl (elim (run-moves m picks (step m s pick)) [
    | inl lesser ↦ omega arith
    | inr (same, _) ↦ subst (λ t. work m t < work m s) (sym same) less
  ])
  | inr stays ↦
      subst
        (λ t.
          (work m (run m picks t) < work m s)
          ⊎ ((run m picks t ≡ s) × ((step m s pick ≡ s) × All (λ p. step m s p ≡ s) picks)))
        (sym stays)
        (elim (run-moves m picks s) [
          | inl less ↦ inl less
          | inr (same, all) ↦ inr (same, (stays, all))
        ])
]

run-le : (m : ℕ) (picks : List (ℕ × Bool)) (s : Disk) → work m (run m picks s) ≤ work m s
run-le m picks s = elim (run-moves m picks s) [
  | inl less ↦ omega arith
  | inr (same, _) ↦ omega (arith, ap (work m) same)
]

-- The scheduler picks child `i`.
abbrev pub Picks : ℕ → List (ℕ × Bool) → Type 0
Picks i [] = ⊥
Picks i ((j, ok) ∷ picks) = (i ≡ j) ⊎ Picks i picks

-- A round in which the scheduler picks each of the `n` children.
abbrev pub IsFair : ℕ → List (ℕ × Bool) → Type 0
IsFair n round = (i : ℕ) → i < n → Picks i round

-- One round after the other.
abbrev pub run_rounds : ℕ → List (List (ℕ × Bool)) → Disk → Disk
run_rounds m [] s = s
run_rounds m (round ∷ rounds) s = run_rounds m rounds (run m round s)

stays-Picks :
    (m i : ℕ) (s : Disk) (picks : List (ℕ × Bool))
    → Picks i picks
    → All (λ pick. step m s pick ≡ s) picks
    → (ok : Bool) × (step m s (i, ok) ≡ s)
stays-Picks m i s [] never all = absurd never
stays-Picks m i s ((j, ok) ∷ picks) (inl e) (stays, all) =
    (ok, subst (λ k. step m s (k, ok) ≡ s) (sym e) stays)
stays-Picks m i s ((j, ok) ∷ picks) (inr later) (stays, all) = stays-Picks m i s picks later all

-- While there is work left, a fair round brings it down.
round-less :
    (m n : ℕ) (s : Disk) (round : List (ℕ × Bool))
    → Inv m s
    → length s.children ≡ n
    → IsFair n round
    → 0 < work m s
    → work m (run m round s) < work m s
unfolding Works
round-less m n s round inv len fair busy = elim (run-moves m round s) [
  | inl less ↦ less
  | inr (same, all) ↦
      let (i, c, at, less) = child-Works m s s.holder refl inv busy in
      let picked : Picks i round = elim (elem_at s.children i) [
        | inl (d, here, lt) ↦ fair i (omega arith)
        | inr (gone, le) ↦ absurd (cc)
      ] in
      let (ok, stays) = stays-Picks m i s round picked all in
      absurd (omega (arith, less ok, ap (work m) stays))
]

ends_from :
    (m n : ℕ) (rounds : List (List (ℕ × Bool))) (s : Disk)
    → Inv m s
    → length s.children ≡ n
    → All (IsFair n) rounds
    → work m s ≤ length rounds
    → All HasExited (run_rounds m rounds s).children
ends_from m n [] s inv len fair le =
    All-map _ HasExited (idle-HasExited m) s.children
      (All-eq_zero (weight m) s.children (omega arith))
ends_from m n (round ∷ rounds) s inv len (first, fair) le =
    ends_from m n rounds (run m round s) (run-Inv m round s inv) (run-length m round s ∙ len) fair
      (elim (dec_lt 0 (work m s)) [
        | yes busy ↦ omega (arith, round-less m n s round inv len first busy)
        | no idle ↦ omega (arith, run-le m round s)
      ])

-- Whatever the children have done, and whichever calls have failed: no child waits for the lock for
-- ever. Once there have been n * (m + 4) further rounds, in each of which the scheduler picks each
-- of the `n` children at least once, in any order and any number of times, and whichever of the
-- calls in them fail, all `n` children have come to their exit.
pub children_exit :
    (m n : ℕ) (picks : List (ℕ × Bool)) (rounds : List (List (ℕ × Bool)))
    → All (IsFair n) rounds
    → n * (m + 4) ≤ length rounds
    → All HasExited (run_rounds m rounds (run m picks (launched n))).children
children_exit m n picks rounds fair le =
    ends_from m n rounds (run m picks (launched n))
      (run-Inv m picks (launched n) (launched-Inv m n))
      (run-length m picks (launched n) ∙ length-replicate n opening) fair
      (omega (arith, run-le m picks (launched n), total-replicate (weight m) n opening))
