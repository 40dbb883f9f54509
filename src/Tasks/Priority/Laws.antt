-- ===== src/Tasks/Priority/Laws.antt =====
-- The two rings of lab5/zad3 implement two queues that hold ten tasks together.
use sys_op.Prelude.{
  ℕ, suc, ◌+◌, ◌%◌, ◌≤◌, ◌<◌, ◌≡◌, refl, List, [], ◌∷◌, ◌++◌, Bool, true, false, length,
  length-append, get_or, set, replicate, ltb, lt→ltb, ◌-◌, All, All-append, arith, ◌∙◌, ap,
  if◌then◌else◌,
}
use sys_op.Prelude.Ring.{IsRing, IsRing-push, IsRing-pop}
use sys_op.Tasks.Store.{Implements}
use sys_op.Tasks.Text.{Task, task_len, blank, strncpy, IsText, generate_random_string-IsText}
use sys_op.Tasks.Priority.{
  SharedMemory, store, k, zeroed, insert_task, remove_task, age_task, task_of, is_priority_of,
}

pub record Queues : Type 0 where
  pub priority : List Task
  pub normal : List Task

abbrev pub size : Queues → ℕ
size q = length q.priority + length q.normal

abbrev pub put_task : Bool → Task → Queues → Queues
put_task is_priority t q =
    if is_priority
    then record q { priority = q.priority ++ (t ∷ []) }
    else record q { normal = q.normal ++ (t ∷ []) }

abbrev pub put : (ℕ → ℕ) → Queues → Queues
put rand q = put_task (is_priority_of rand) (task_of rand) q

-- A priority task goes first.
abbrev pub take_from : List Task → List Task → (Bool × Task) × Queues
take_from (t ∷ p) n = ((true, t), record { priority = p; normal = n })
take_from [] (t ∷ n) = ((false, t), record { priority = []; normal = n })
take_from [] [] = ((false, blank), record { priority = []; normal = [] })

abbrev pub take_first : Queues → (Bool × Task) × Queues
take_first q = take_from q.priority q.normal

abbrev pub shift_from : List Task → List Task → Queues
shift_from p [] = record { priority = p; normal = [] }
shift_from p (t ∷ n) = record { priority = p ++ (t ∷ []); normal = n }

-- The oldest normal task moves behind the priority tasks.
abbrev pub shift : Queues → Queues
shift q = shift_from q.priority q.normal

-- One of the two rings with its counter.
pub record Counted (buf : List Task) (head tail count : ℕ) (q : List Task) : Type 0 where
  pub ring : IsRing blank k buf head tail q
  pub counted : count ≡ length q
  pub texts : All IsText q

pub record Holds (s : SharedMemory) (q : Queues) : Type 0 where
  pub urgent : Counted s.priority_queue s.priority_head s.priority_tail s.priority_count q.priority
  pub common : Counted s.normal_queue s.normal_head s.normal_tail s.normal_count q.normal

module _ (buf : List Task) (head tail count : ℕ) (t : Task) (q : List Task) where
  Counted-push :
      IsText t
      → length q < k
      → Counted buf head tail count q
      → Counted
          (set buf tail (strncpy task_len t))
          head
          ((tail + 1) % k)
          (count + 1)
          (q ++ (t ∷ []))
  Counted-push text lt c = record {
    ring = rw text (IsRing-push blank k buf head tail q t lt c.ring);
    counted = omega (arith, c.counted, length-append q (t ∷ []));
    texts = All-append IsText q (t ∷ []) c.texts (text, tt);
  }

  Counted-pop :
      Counted buf head tail count (t ∷ q)
      → (strncpy task_len (get_or buf head blank) ≡ t)
        × Counted buf ((head + 1) % k) tail (count - 1) q
  Counted-pop c = (
    ap (strncpy task_len) (IsRing-pop blank k buf head tail t q c.ring).0 ∙ c.texts.0,
    record {
      ring = (IsRing-pop blank k buf head tail t q c.ring).1;
      counted = omega (arith, c.counted);
      texts = c.texts.1;
    },
  )

insert_task-Holds :
    (s : SharedMemory) (q : Queues) (b : Bool) (t : Task)
    → IsText t
    → size q < k
    → Holds s q
    → Holds (insert_task b t s) (put_task b t q)
unfolding insert_task
insert_task-Holds s q true t text lt h = record {
  urgent = Counted-push _ _ _ _ t q.priority text (omega arith) h.urgent;
  common = h.common;
}
insert_task-Holds s q false t text lt h = record {
  urgent = h.urgent;
  common = Counted-push _ _ _ _ t q.normal text (omega arith) h.common;
}

pub insert-Holds :
    (s : SharedMemory) (q : Queues) (rand : ℕ → ℕ)
    → size q < k
    → Holds s q
    → Holds (insert_task (is_priority_of rand) (task_of rand) s) (put rand q)
insert-Holds s q rand =
    insert_task-Holds s q (is_priority_of rand) (task_of rand) (generate_random_string-IsText rand)

remove_task-priority :
    (s : SharedMemory)
    → 0 < s.priority_count
    → remove_task s ≡ (
      (true, strncpy task_len (get_or s.priority_queue s.priority_head blank)),
      record s { priority_head = (s.priority_head + 1) % k; priority_count = s.priority_count - 1 },
    )
unfolding remove_task
remove_task-priority s h = rw (lt→ltb 0 s.priority_count h)

remove_task-normal :
    (s : SharedMemory)
    → s.priority_count ≡ 0
    → remove_task s ≡ (
      (false, strncpy task_len (get_or s.normal_queue s.normal_head blank)),
      record s { normal_head = (s.normal_head + 1) % k; normal_count = s.normal_count - 1 },
    )
unfolding remove_task
remove_task-normal s h =
    let none_left : ltb 0 s.priority_count ≡ false = ground arith in rw none_left

-- What `remove_task` does, by the queue that the task comes from.
pub remove_task-refines :
    (s : SharedMemory) (p n : List Task)
    → 0 < length p + length n
    → Holds s (record { priority = p; normal = n })
    → ((remove_task s).0 ≡ (take_from p n).0) × Holds (remove_task s).1 (take_from p n).1
remove_task-refines s (t ∷ p) n lt h =
    let (same, rest) = Counted-pop _ _ _ _ t p h.urgent in
    rw (remove_task-priority s (omega (arith, h.urgent.counted)))
      (ap (λ u. (true, u)) same, record { urgent = rest; common = h.common })
remove_task-refines s [] (t ∷ n) lt h =
    let (same, rest) = Counted-pop _ _ _ _ t n h.common in
    rw (remove_task-normal s h.urgent.counted)
      (ap (λ u. (false, u)) same, record { urgent = h.urgent; common = rest })
remove_task-refines s [] [] lt h = absurd (omega arith)

pub age_task-refines :
    (s : SharedMemory) (p n : List Task)
    → length p + length n ≤ k
    → Holds s (record { priority = p; normal = n })
    → Holds (age_task s) (shift_from p n)
unfolding age_task
age_task-refines s p (t ∷ n) lt h =
    let some_left : ltb 0 s.normal_count ≡ true = ground (arith, h.common.counted) in
    let (same, rest) = Counted-pop _ _ _ _ t n h.common in
    rw (some_left, same)
      (record {
        urgent = Counted-push _ _ _ _ t p h.common.texts.0 (omega arith) h.urgent;
        common = rest;
      })
age_task-refines s p [] lt h =
    let none_left : ltb 0 s.normal_count ≡ false = ground (arith, h.common.counted) in
    rw none_left h

pub size-put_task : (b : Bool) (t : Task) (q : Queues) → size (put_task b t q) ≡ suc (size q)
size-put_task true t q = omega (arith, length-append q.priority (t ∷ []))
size-put_task false t q = omega (arith, length-append q.normal (t ∷ []))

pub size-take_from :
    (p n : List Task) → 0 < length p + length n → suc (size (take_from p n).1) ≡ length p + length n
size-take_from (t ∷ p) n h = omega arith
size-take_from [] (t ∷ n) h = omega arith
size-take_from [] [] h = absurd (omega arith)

pub size-shift_from : (p n : List Task) → size (shift_from p n) ≡ length p + length n
size-shift_from p [] = omega arith
size-shift_from p (t ∷ n) = omega (arith, length-append p (t ∷ []))

pub remove-taken :
    (s : SharedMemory) (q : Queues) → 0 < size q → Holds s q → (remove_task s).0 ≡ (take_first q).0
remove-taken s q lt h = (remove_task-refines s q.priority q.normal lt h).0

pub remove-Holds :
    (s : SharedMemory) (q : Queues)
    → 0 < size q
    → Holds s q
    → Holds (remove_task s).1 (take_first q).1
remove-Holds s q lt h = (remove_task-refines s q.priority q.normal lt h).1

-- The two rings of lab5/zad3 implement the two queues.
abbrev pub implements : Implements store
implements = record {
  Model = Queues;
  cap = k;
  empty_model = record { priority = []; normal = [] };
  size = size;
  put = put;
  take = take_first;
  shift = shift;
  Holds = Holds;
  cap_pos = omega arith;
  size-empty = refl;
  size-put = λ rand q. size-put_task (is_priority_of rand) (task_of rand) q;
  size-take = λ q h. size-take_from q.priority q.normal h;
  size-shift = λ q. size-shift_from q.priority q.normal;
  insert-Holds = insert-Holds;
  remove-taken = remove-taken;
  remove-Holds = remove-Holds;
  age-Holds = λ s q lt h. age_task-refines s q.priority q.normal lt h;
}

pub zeroed-Holds : Holds zeroed (record { priority = []; normal = [] })
zeroed-Holds = record { urgent = clear; common = clear }
  where
    clear : Counted (replicate k blank) 0 0 0 []
    clear = record {
      ring = record { room = refl; rd_in = omega arith; wr_at = refl; items = refl };
      counted = refl;
      texts = tt;
    }
