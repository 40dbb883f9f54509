-- ===== src/Tasks/Single.antt =====
-- lab5/zad1: the shared memory is one circular buffer with a read and a write index.
pub mod Fifo
use sys_op.Prelude.{
  ℕ, suc, ◌+◌, ◌%◌, ◌<◌, ◌≡◌, refl, List, [], ◌∷◌, ◌++◌, length, length-append, set, get_or, All,
  All-append, arith, sym, ◌∙◌, ap,
}
use sys_op.Prelude.Ring.{IsRing, IsRing-push, IsRing-pop}
use sys_op.Tasks.Store.{Store, Implements}
use sys_op.Tasks.Text.{
  Task, task_len, blank, strncpy, generate_random_string, IsText, generate_random_string-IsText,
}

abbrev pub k : ℕ
k = 5

pub record SharedMemory : Type 0 where
  pub buffer : List Task
  pub head : ℕ
  pub tail : ℕ

-- The memory that `ftruncate` has filled with zeros.
abbrev pub zeroed : SharedMemory
zeroed = record { buffer = blank ∷ blank ∷ blank ∷ blank ∷ blank ∷ []; head = 0; tail = 0 }

-- The critical section of the producer, for the text `task_str`.
unfoldable pub insert_task : Task → SharedMemory → SharedMemory
insert_task task_str s = record s {
  buffer = set s.buffer s.tail (strncpy task_len task_str);
  tail = (s.tail + 1) % k;
}

-- The critical section of the consumer.
unfoldable pub remove_task : SharedMemory → Task × SharedMemory
remove_task s =
    (strncpy task_len (get_or s.buffer s.head blank), record s { head = (s.head + 1) % k })

-- The text that a producer makes from its values of `rand()`.
abbrev pub task_of : (ℕ → ℕ) → Task
task_of rand = generate_random_string rand 10

-- There is no manager in lab5/zad1.
abbrev pub store : Store
store = record {
  Shared = SharedMemory;
  Draw = ℕ → ℕ;
  Taken = Task;
  insert = λ rand s. insert_task (task_of rand) s;
  remove = remove_task;
  age = λ s. s;
}

-- The abstract queue: the tasks in the order of their insertion.
pub record Holds (s : SharedMemory) (q : List Task) : Type 0 where
  pub ring : IsRing blank k s.buffer s.head s.tail q
  pub texts : All IsText q

abbrev pub take_first : List Task → Task × List Task
take_first [] = (blank, [])
take_first (t ∷ q) = (t, q)

pub take_first-size : (q : List Task) → 0 < length q → suc (length (take_first q).1) ≡ length q
take_first-size [] h = absurd (omega arith)
take_first-size (t ∷ q) h = refl

pub insert-Holds :
    (s : SharedMemory) (q : List Task) (rand : ℕ → ℕ)
    → length q < k
    → Holds s q
    → Holds (insert_task (task_of rand) s) (q ++ (task_of rand ∷ []))
unfolding insert_task
insert-Holds s q rand lt h = record {
  ring =
      rw (generate_random_string-IsText rand)
        (IsRing-push blank k s.buffer s.head s.tail q (task_of rand) lt h.ring);
  texts = All-append IsText q (task_of rand ∷ []) h.texts (generate_random_string-IsText rand, tt);
}

pub remove-taken :
    (s : SharedMemory) (q : List Task)
    → 0 < length q
    → Holds s q
    → (remove_task s).0 ≡ (take_first q).0
unfolding remove_task
remove-taken s [] lt h = absurd (omega arith)
remove-taken s (t ∷ q) lt h =
    ap (strncpy task_len) (IsRing-pop blank k s.buffer s.head s.tail t q h.ring).0 ∙ h.texts.0

pub remove-Holds :
    (s : SharedMemory) (q : List Task)
    → 0 < length q
    → Holds s q
    → Holds (remove_task s).1 (take_first q).1
unfolding remove_task
remove-Holds s [] lt h = absurd (omega arith)
remove-Holds s (t ∷ q) lt h = record {
  ring = (IsRing-pop blank k s.buffer s.head s.tail t q h.ring).1;
  texts = h.texts.1;
}

-- The ring of lab5/zad1 implements a queue of at most five tasks.
abbrev pub implements : Implements store
implements = record {
  Model = List Task;
  cap = k;
  empty_model = [];
  size = length;
  put = λ rand q. q ++ (task_of rand ∷ []);
  take = take_first;
  shift = λ q. q;
  Holds = Holds;
  cap_pos = omega arith;
  size-empty = refl;
  size-put = λ rand q. omega (arith, length-append q (task_of rand ∷ []));
  size-take = take_first-size;
  size-shift = λ q. refl;
  insert-Holds = insert-Holds;
  remove-taken = remove-taken;
  remove-Holds = remove-Holds;
  age-Holds = λ s q lt h. h;
}

pub zeroed-Holds : Holds zeroed []
zeroed-Holds = record {
  ring = record { room = refl; rd_in = omega arith; wr_at = refl; items = refl };
  texts = tt;
}
