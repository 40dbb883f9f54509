-- ===== src/Forks/Locked/Blocks.antt =====
-- The file that the children of lab1/zad3 write, in every interleaving of their calls.
use sys_op.Prelude.{
  ℕ, zero, suc, ◌≡◌, refl, Bool, true, false, List, [], ◌∷◌, ◌++◌, Option, none, some, get_elem?,
  replicate, arith,
}
use sys_op.Forks.Locked.{
  Child, opening, locking, writing, closing, exited, Disk, take_lock, child_at, call, step, run,
  launched,
}
use sys_op.Forks.Locked.Inv.{
  Inv, Tail, Tally, blocks, count, Inv-move, Inv-acquire, Inv-write, Inv-release,
}

lock-Inv :
    (m : ℕ) (s : Disk) (i : ℕ) (o : Option ℕ)
    → get_elem? s.children i ≡ some locking
    → s.holder ≡ o
    → Inv m s
    → Inv m (take_lock m i o s)
lock-Inv m s i none at e h = Inv-acquire m s i locking at refl e h
lock-Inv m s i (some j) at e h = h

child_at-Inv :
    (m : ℕ) (s : Disk) (i : ℕ) (ok : Bool) (c : Child)
    → get_elem? s.children i ≡ some c
    → Inv m s
    → Inv m (child_at m i ok c s)
unfolding child_at
child_at-Inv m s i true opening at h =
    Inv-move m s i opening at locking (λ l e. cc) (λ l e. cc) (λ n t. t) h
child_at-Inv m s i false opening at h =
    Inv-move m s i opening at (exited 1) (λ l e. cc) (λ l e. cc) (λ n t. omega arith) h
child_at-Inv m s i true locking at h = lock-Inv m s i s.holder at refl h
child_at-Inv m s i false locking at h =
    Inv-move m s i locking at (exited 1) (λ l e. cc) (λ l e. cc) (λ n t. omega arith) h
child_at-Inv m s i ok (writing (suc left)) at h =
    Inv-write m s i (writing (suc left)) at left refl h
child_at-Inv m s i true (writing zero) at h =
    Inv-release m s i (writing 0) at closing refl (λ l e. cc) refl h
child_at-Inv m s i false (writing zero) at h =
    Inv-release m s i (writing 0) at (exited 1) refl (λ l e. cc) (omega arith) h
child_at-Inv m s i ok closing at h =
    Inv-move m s i closing at (exited 0) (λ l e. cc) (λ l e. cc) (λ n t. t) h
child_at-Inv m s i ok (exited status) at h = h

call-Inv :
    (m : ℕ) (s : Disk) (i : ℕ) (ok : Bool) (o : Option Child)
    → get_elem? s.children i ≡ o
    → Inv m s
    → Inv m (call m i ok o s)
call-Inv m s i ok none e h = h
call-Inv m s i ok (some c) e h = child_at-Inv m s i ok c e h

pub step-Inv : (m : ℕ) (s : Disk) (pick : ℕ × Bool) → Inv m s → Inv m (step m s pick)
unfolding step
step-Inv m s (i, ok) h = call-Inv m s i ok (get_elem? s.children i) refl h

pub run-Inv : (m : ℕ) (picks : List (ℕ × Bool)) (s : Disk) → Inv m s → Inv m (run m picks s)
unfolding run
run-Inv m [] s h = h
run-Inv m (pick ∷ picks) s h = run-Inv m picks (step m s pick) (step-Inv m s pick h)

opening_only :
    (n j : ℕ) (P : Option Child → Type 0)
    → P none
    → P (some opening)
    → P (get_elem? (replicate n opening) j)
opening_only zero j P nobody opens = nobody
opening_only (suc n) zero P nobody opens = opens
opening_only (suc n) (suc j) P nobody opens = opening_only n j P nobody opens

pub launched-Inv : (m n : ℕ) → Inv m (launched n)
unfolding blocks count
launched-Inv m n = record {
  tail = [];
  file_is = refl;
  tail_is = refl;
  owner = λ j.
      opening_only n j (λ o. (left : ℕ) → o ≡ some (writing left) → none ≡ some j) (λ l e. cc)
        (λ l e. cc);
  once = λ j. opening_only n j (λ o. Tally o 0) refl refl;
}

-- However `n` children that write `m` lines each are interleaved, and whichever calls of fopen and
-- flock fail: the file is at every moment the blocks of `m` lines, unbroken, of the children that
-- have given the lock back, followed by the lines so far of the child that has it, if one has; and
-- the block of each child is there at most once, exactly once if it has exited with 0, and not
-- before it has given the lock back.
pub file_blocks :
    (m n : ℕ) (picks : List (ℕ × Bool))
    → let s = run m picks (launched n) in
      (tail : List ℕ) × (s.file ≡ blocks m s.completed ++ tail)
      × Tail m s.holder s.children tail
      × ((j : ℕ) → Tally (get_elem? s.children j) (count j s.completed))
file_blocks m n picks =
    let inv = run-Inv m picks (launched n) (launched-Inv m n) in
    (inv.tail, inv.file_is, inv.tail_is, inv.once)
