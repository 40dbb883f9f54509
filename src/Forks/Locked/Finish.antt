-- ===== src/Forks/Locked/Finish.antt =====
-- The children of lab1/zad3 to their end, and the file that they leave.
use sys_op.Prelude.{
  ℕ, zero, suc, ◌+◌, ◌≤◌, ◌<◌, ◌≡◌, refl, sym, ap, subst, ◌∙◌, Bool, true, false, List, [], ◌∷◌,
  ◌++◌, Option, none, some, get_elem?, append-nil, arith, ◌==◌, if◌then◌else◌, ℕ_discrete, ◌⊎◌, inl,
  inr, All, All-get_elem?, length, length-set, length-replicate,
}
use mathlib.Core.List.{Perm, perm_middle}
use mathlib.Core.List.Perm
use sys_op.Forks.Locked.{
  Child, opening, locking, writing, closing, exited, Disk, take_lock, child_at, call, step, run,
  launched,
}
use sys_op.Forks.Locked.Inv.{Inv, Tail, Tally, blocks, count, holder-writing}
use sys_op.Forks.Locked.Blocks.{run-Inv, launched-Inv}

-- The numbers below `n`.
abbrev pub below : ℕ → List ℕ
below zero = []
below (suc n) = n ∷ below n

abbrev same : ℕ → ℕ → ℕ
same i j = if i == j then 1 else 0

-- A list that has a number splits at it.
split_at :
    (i : ℕ) (xs : List ℕ)
    → 1 ≤ count i xs
    → (front : List ℕ) × (back : List ℕ) × (xs ≡ front ++ (i ∷ back))
      × ((j : ℕ) → count j xs ≡ count j (front ++ back) + same i j)
unfolding count
split_at i [] h = absurd (omega (arith, h))
split_at i (x ∷ xs) h = elim (ℕ_discrete x i) [
  | yes e ↦ (
    [],
    xs,
    ap (λ y. y ∷ xs) e,
    λ j. subst (λ y. count j (y ∷ xs) ≡ count j xs + same i j) (sym e) (ground arith),
  )
  | no ne ↦
      let (front, back, is, counted) = split_at i xs (ground (arith, ne)) in
      (x ∷ front, back, ap (λ l. x ∷ l) is, λ j. ground (arith, counted j))
]

same_self : (n : ℕ) → same n n ≡ 1
same_self n = ground arith

-- A list with each number below `n` once and no other is an order of them.
once-Perm :
    (n : ℕ) (xs : List ℕ)
    → ((j : ℕ) → j < n → count j xs ≡ 1)
    → ((j : ℕ) → n ≤ j → count j xs ≡ 0)
    → Perm xs (below n)
unfolding count
once-Perm zero [] once never = Perm.refl []
once-Perm zero (x ∷ xs) once never = absurd (ground (arith, never x (omega arith)))
once-Perm (suc n) xs once never =
    let (front, back, is, counted) = split_at n xs (omega (arith, once n (omega arith))) in
    let rest : Perm (front ++ back) (below n) =
      once-Perm n (front ++ back) (λ j lt. ground (arith, once j (omega arith), counted j))
        (λ j le. elim (ℕ_discrete n j) [
          | yes e ↦ omega (
            arith,
            ap (λ k. count k xs) (sym e),
            once n (omega arith),
            counted n,
            ap (λ k. count k (front ++ back)) (sym e),
            same_self n,
          )
          | no ne ↦ ground (arith, never j (omega (arith, ne)), counted j)
        ]) in
    subst (λ l. Perm l (below (suc n))) (sym is)
      (Perm.trans (perm_middle front back) (Perm.cons n rest))

child_at-length :
    (m i : ℕ) (ok : Bool) (c : Child) (s : Disk)
    → length (child_at m i ok c s).children ≡ length s.children
unfolding child_at
child_at-length m i ok opening s = length-set s.children i _
child_at-length m i false locking s = length-set s.children i _
child_at-length m i true locking s = lock-length s.holder
  where
    lock-length : (o : Option ℕ) → length (take_lock m i o s).children ≡ length s.children
    lock-length none = length-set s.children i _
    lock-length (some h) = refl
child_at-length m i ok (writing zero) s = length-set s.children i _
child_at-length m i ok (writing (suc left)) s = length-set s.children i _
child_at-length m i ok closing s = length-set s.children i _
child_at-length m i ok (exited status) s = refl

call-length :
    (m i : ℕ) (ok : Bool) (o : Option Child) (s : Disk)
    → length (call m i ok o s).children ≡ length s.children
call-length m i ok none s = refl
call-length m i ok (some c) s = child_at-length m i ok c s

pub run-length :
    (m : ℕ) (picks : List (ℕ × Bool)) (s : Disk)
    → length (run m picks s).children ≡ length s.children
unfolding run step
run-length m [] s = refl
run-length m ((i, ok) ∷ picks) s =
    run-length m picks (step m s (i, ok)) ∙ call-length m i ok (get_elem? s.children i) s

-- No child is missing below the length, and none is beyond.
pub elem_at :
    {A : Type 0} (xs : List A) (j : ℕ)
    → ((x : A) × (get_elem? xs j ≡ some x) × (j < length xs))
      ⊎ ((get_elem? xs j ≡ none) × (length xs ≤ j))
elem_at [] j = inr (refl, omega arith)
elem_at (x ∷ xs) zero = inl (x, refl, omega arith)
elem_at (x ∷ xs) (suc j) = elim (elem_at xs j) [
  | inl (y, e, lt) ↦ inl (y, e, omega arith)
  | inr (e, le) ↦ inr (e, omega arith)
]

module _ (m : ℕ) (s : Disk) (inv : Inv m s) (done : All (λ c. c ≡ exited 0) s.children) where
  exits : (j : ℕ) (c : Child) → get_elem? s.children j ≡ some c → c ≡ exited 0
  exits j c e = All-get_elem? (λ d. d ≡ exited 0) s.children j c e done

  count_below : (j : ℕ) → j < length s.children → count j s.completed ≡ 1
  count_below j lt = elim (elem_at s.children j) [
    | inl (c, e, _) ↦
        subst (λ o. Tally o (count j s.completed)) (e ∙ ap some (exits j c e)) (inv.once j)
    | inr (e, le) ↦ absurd (omega arith)
  ]

  count_beyond : (j : ℕ) → length s.children ≤ j → count j s.completed ≡ 0
  count_beyond j le = elim (elem_at s.children j) [
    | inl (c, e, lt) ↦ absurd (omega arith)
    | inr (e, _) ↦ subst (λ o. Tally o (count j s.completed)) e (inv.once j)
  ]

  free_tail :
      (o : Option ℕ) → s.holder ≡ o → Tail m o s.children inv.tail → (o ≡ none) × (inv.tail ≡ [])
  free_tail none e t = (refl, t)
  free_tail (some h) e t =
      let (k, left, at, _, _) = holder-writing m h (some h) s.children inv.tail t refl in
      absurd (cc (exits h (writing left) at))

-- When all `n` children have exited with 0, in whatever order they ran: the file has one unbroken
-- block of `m` lines of each child and nothing else, in the order in which they gave the lock back,
-- and nobody holds the lock.
pub file_complete :
    (m n : ℕ) (picks : List (ℕ × Bool))
    → All (λ c. c ≡ exited 0) (run m picks (launched n)).children
    → ((run m picks (launched n)).file ≡ blocks m (run m picks (launched n)).completed)
      × Perm (run m picks (launched n)).completed (below n)
      × ((run m picks (launched n)).holder ≡ none)
file_complete m n picks done =
    let s : Disk = run m picks (launched n) in
    let inv : Inv m s = run-Inv m picks (launched n) (launched-Inv m n) in
    let (free, clean) = free_tail m s inv done s.holder refl inv.tail_is in
    let sized : length s.children ≡ n =
      run-length m picks (launched n) ∙ length-replicate n opening in
    (
      inv.file_is ∙ ap (λ l. blocks m s.completed ++ l) clean ∙ append-nil (blocks m s.completed),
      once-Perm n s.completed (λ j lt. count_below m s inv done j (omega arith))
          (λ j le. count_beyond m s inv done j (omega arith)),
      free,
    )
