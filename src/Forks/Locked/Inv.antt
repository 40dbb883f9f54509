-- ===== src/Forks/Locked/Inv.antt =====
-- What the lock of lab1/zad3 keeps of the file.
use sys_op.Prelude.{
  ℕ, zero, suc, ◌+◌, ◌≤◌, ◌≡◌, ◌≢◌, refl, sym, ap, subst, ◌∙◌, if◌then◌else◌, ◌==◌, List, [], ◌∷◌,
  ◌++◌, Option, none, some, get_elem?, set, replicate, append_assoc, append-nil, get_elem?-set_self,
  get_elem?-set_ne, arith, ℕ_discrete,
}
use sys_op.Forks.Locked.{Child, locking, writing, closing, exited, Disk}

-- The lines of children who have each written `m`, one after the other.
unfoldable pub blocks : ℕ → List ℕ → List ℕ
blocks m [] = []
blocks m (i ∷ is) = replicate m i ++ blocks m is

unfoldable pub count : ℕ → List ℕ → ℕ
count i [] = 0
count i (x ∷ xs) = let rest = count i xs in if x == i then suc rest else rest

-- How often a child has completed its lines, by where it stands.
abbrev pub Tally : Option Child → ℕ → Type 0
Tally (some closing) n = n ≡ 1
Tally (some (exited zero)) n = n ≡ 1
Tally (some (exited (suc e))) n = n ≤ 1
Tally _ n = n ≡ 0

-- The lines behind the blocks: those of the holder, who has `left` to write.
abbrev pub Tail : ℕ → Option ℕ → List Child → List ℕ → Type 0
Tail m none cs tail = tail ≡ []
Tail m (some h) cs tail =
    (k left : ℕ) × (get_elem? cs h ≡ some (writing left)) × (k + left ≡ m) × (tail ≡ replicate k h)

pub record Inv (m : ℕ) (s : Disk) : Type 0 where
  pub tail : List ℕ
  pub file_is : s.file ≡ blocks m s.completed ++ tail
  pub tail_is : Tail m s.holder s.children tail
  pub owner : (j left : ℕ) → get_elem? s.children j ≡ some (writing left) → s.holder ≡ some j
  pub once : (j : ℕ) → Tally (get_elem? s.children j) (count j s.completed)

blocks-snoc :
    (m : ℕ) (is : List ℕ) (i : ℕ) → blocks m (is ++ (i ∷ [])) ≡ blocks m is ++ replicate m i
unfolding blocks
blocks-snoc m [] i = append-nil (replicate m i)
blocks-snoc m (x ∷ is) i =
    ap (λ l. replicate m x ++ l) (blocks-snoc m is i)
    ∙ sym (append_assoc (replicate m x) (blocks m is) (replicate m i))

replicate-snoc : (k i : ℕ) → replicate k i ++ (i ∷ []) ≡ replicate (suc k) i
replicate-snoc zero i = refl
replicate-snoc (suc k) i = ap (λ l. i ∷ l) (replicate-snoc k i)

count-snoc_self : (i : ℕ) (xs : List ℕ) → count i (xs ++ (i ∷ [])) ≡ suc (count i xs)
unfolding count
count-snoc_self i [] = ground arith
count-snoc_self i (x ∷ xs) = ground (arith, count-snoc_self i xs)

count-snoc_ne : (i j : ℕ) (xs : List ℕ) → i ≢ j → count j (xs ++ (i ∷ [])) ≡ count j xs
unfolding count
count-snoc_ne i j [] ne = ground arith
count-snoc_ne i j (x ∷ xs) ne = ground (arith, count-snoc_ne i j xs ne)

pub holder-writing :
    (m i : ℕ) (o : Option ℕ) (cs : List Child) (t : List ℕ)
    → Tail m o cs t
    → o ≡ some i
    → (k left : ℕ) × (get_elem? cs i ≡ some (writing left)) × (k + left ≡ m) × (t ≡ replicate k i)
holder-writing m i none cs t h e = absurd (cc)
holder-writing m i (some j) cs t (k, left, at, sum, is) e =
    let same : j ≡ i = cc in
    (
      k,
      left,
      subst (λ x. get_elem? cs x ≡ some (writing left)) same at,
      sum,
      subst (λ x. t ≡ replicate k x) same is,
    )

Tail-set :
    (m i : ℕ) (d : Child) (o : Option ℕ) (cs : List Child) (t : List ℕ)
    → o ≢ some i
    → Tail m o cs t
    → Tail m o (set cs i d) t
Tail-set m i d none cs t ne h = h
Tail-set m i d (some j) cs t ne (k, left, at, sum, is) =
    (k, left, get_elem?-set_ne cs i j d (λ e. ne (ap some (sym e))) ∙ at, sum, is)

-- The children of `s`, where child `i` stands at `c`.
module _ (m : ℕ) (s : Disk) (i : ℕ) (c : Child) (at : get_elem? s.children i ≡ some c) where
  -- A child after a move of child `i` to `d` is this one, or another one as before.
  moved :
      (d : Child) (P : ℕ → Option Child → Type 0)
      → P i (some d)
      → ((j : ℕ) → i ≢ j → P j (get_elem? s.children j))
      → (j : ℕ) → P j (get_elem? (set s.children i d) j)
  moved d P here there j = elim (ℕ_discrete i j) [
    | yes e ↦
        subst (λ k. P k (get_elem? (set s.children i d) k)) e
          (subst (P i) (sym (get_elem?-set_self s.children i d c at)) here)
    | no ne ↦ subst (P j) (sym (get_elem?-set_ne s.children i j d ne)) (there j ne)
  ]

  not_holder : (h : Inv m s) → ((left : ℕ) → c ≢ writing left) → s.holder ≢ some i
  not_holder h idle e =
      let (k, left, here, sum, is) = holder-writing m i s.holder s.children h.tail h.tail_is e in
      idle left (cc)

  tally : (h : Inv m s) → Tally (some c) (count i s.completed)
  tally h = subst (λ o. Tally o (count i s.completed)) at (h.once i)

  -- A move that leaves the lock and the file alone.
  pub Inv-move :
      (d : Child)
      → ((left : ℕ) → c ≢ writing left)
      → ((left : ℕ) → d ≢ writing left)
      → ((n : ℕ) → Tally (some c) n → Tally (some d) n)
      → Inv m s
      → Inv m (record s { children = set s.children i d })
  Inv-move d before after keeps h = record {
    tail = h.tail;
    file_is = h.file_is;
    tail_is = Tail-set m i d s.holder s.children h.tail (not_holder h before) h.tail_is;
    owner =
        moved d (λ j o. (left : ℕ) → o ≡ some (writing left) → s.holder ≡ some j)
          (λ left e. absurd (after left (cc))) (λ j ne. h.owner j);
    once =
        moved d (λ j o. Tally o (count j s.completed)) (keeps (count i s.completed) (tally h))
          (λ j ne. h.once j);
  }

  pub Inv-acquire :
      c ≡ locking
      → s.holder ≡ none
      → Inv m s
      → Inv m (record s { holder = some i; children = set s.children i (writing m) })
  Inv-acquire e free h = record {
    tail = h.tail;
    file_is = h.file_is;
    tail_is = (
      0,
      m,
      get_elem?-set_self s.children i (writing m) c at,
      omega arith,
      subst (λ o. Tail m o s.children h.tail) free h.tail_is,
    );
    owner =
        moved (writing m) (λ j o. (left : ℕ) → o ≡ some (writing left) → some i ≡ some j)
          (λ left _. refl) (λ j ne left w. absurd (cc (h.owner j left w, free)));
    once =
        moved (writing m) (λ j o. Tally o (count j s.completed))
          (subst (λ x. Tally (some x) (count i s.completed)) e (tally h)) (λ j ne. h.once j);
  }

  pub Inv-write :
      (left : ℕ)
      → c ≡ writing (suc left)
      → Inv m s
      → Inv m (record s { file = s.file ++ (i ∷ []); children = set s.children i (writing left) })
  Inv-write left e h =
      let own : s.holder ≡ some i = h.owner i (suc left) (at ∙ ap some e) in
      let (k, left', here, sum, is) = holder-writing m i s.holder s.children h.tail h.tail_is own in
      let same : left' ≡ suc left = cc in
      record {
        tail = h.tail ++ (i ∷ []);
        file_is =
            ap (λ l. l ++ (i ∷ [])) h.file_is ∙ append_assoc (blocks m s.completed) h.tail (i ∷ []);
        tail_is =
            subst (λ o. Tail m o (set s.children i (writing left)) (h.tail ++ (i ∷ []))) (sym own)
              (
                suc k,
                left,
                get_elem?-set_self s.children i (writing left) c at,
                omega arith,
                ap (λ l. l ++ (i ∷ [])) is ∙ replicate-snoc k i,
              );
        owner =
            moved (writing left) (λ j o. (l : ℕ) → o ≡ some (writing l) → s.holder ≡ some j)
              (λ l _. own) (λ j ne. h.owner j);
        once =
            moved (writing left) (λ j o. Tally o (count j s.completed))
              (subst (λ x. Tally (some x) (count i s.completed)) e (tally h)) (λ j ne. h.once j);
      }

  pub Inv-release :
      (d : Child)
      → c ≡ writing 0
      → ((left : ℕ) → d ≢ writing left)
      → Tally (some d) 1
      → Inv m s
      → Inv m (record s {
        holder = none;
        children = set s.children i d;
        completed = s.completed ++ (i ∷ []);
      })
  Inv-release d e after done h =
      let own : s.holder ≡ some i = h.owner i 0 (at ∙ ap some e) in
      let (k, left, here, sum, is) = holder-writing m i s.holder s.children h.tail h.tail_is own in
      let none_left : left ≡ 0 = cc in
      let whole : k ≡ m = omega arith in
      let fresh : count i s.completed ≡ 0 =
        subst (λ x. Tally (some x) (count i s.completed)) e (tally h) in
      record {
        tail = [];
        file_is =
            h.file_is
            ∙ (ap (λ l. blocks m s.completed ++ l) (is ∙ ap (λ x. replicate x i) whole)
                ∙ (sym (blocks-snoc m s.completed i)
                    ∙ sym (append-nil (blocks m (s.completed ++ (i ∷ []))))));
        tail_is = refl;
        owner =
            moved d (λ j o. (l : ℕ) → o ≡ some (writing l) → none ≡ some j)
              (λ l w. absurd (after l (cc))) (λ j ne l w. absurd (ne (cc (own, h.owner j l w))));
        once =
            moved d (λ j o. Tally o (count j (s.completed ++ (i ∷ []))))
              (subst (Tally (some d)) (sym (count-snoc_self i s.completed ∙ ap suc fresh)) done)
              (λ j ne.
                subst (Tally (get_elem? s.children j)) (sym (count-snoc_ne i j s.completed ne))
                  (h.once j));
      }
