-- ===== src/Tasks/Priority.antt =====
-- lab5/zad3: the shared memory is a priority queue and a normal queue, each a circular buffer of ten
-- tasks; lab5/zad2 is the same without the manager.
pub mod Laws
pub mod Delivery
pub mod Aging
use sys_op.Prelude.{
  ℕ, ◌+◌, ◌-◌, ◌%◌, ◌==◌, List, Bool, true, false, if◌then◌else◌, ltb, not, set, get_or, replicate,
}
use sys_op.Tasks.Store.{Store}
use sys_op.Tasks.Process.{Memory}
use sys_op.Tasks.Text.{Task, task_len, blank, strncpy, generate_random_string}

abbrev pub k : ℕ
k = 10

pub record SharedMemory : Type 0 where
  pub priority_queue : List Task
  pub priority_head : ℕ
  pub priority_tail : ℕ
  pub priority_count : ℕ
  pub normal_queue : List Task
  pub normal_head : ℕ
  pub normal_tail : ℕ
  pub normal_count : ℕ

-- The memory that `ftruncate` has filled with zeros.
abbrev pub zeroed : SharedMemory
zeroed = record {
  priority_queue = replicate k blank;
  priority_head = 0;
  priority_tail = 0;
  priority_count = 0;
  normal_queue = replicate k blank;
  normal_head = 0;
  normal_tail = 0;
  normal_count = 0;
}

-- The critical section of the producer.
unfoldable pub insert_task : Bool → Task → SharedMemory → SharedMemory
insert_task is_priority task_str s =
    if is_priority
    then record s {
      priority_queue = set s.priority_queue s.priority_tail (strncpy task_len task_str);
      priority_tail = (s.priority_tail + 1) % k;
      priority_count = s.priority_count + 1;
    }
    else record s {
      normal_queue = set s.normal_queue s.normal_tail (strncpy task_len task_str);
      normal_tail = (s.normal_tail + 1) % k;
      normal_count = s.normal_count + 1;
    }

-- The critical section of the consumer. It returns whether `queue_source` is "PRIORITY", and
-- `task_str`. A count is only reduced where it is positive (the laws below need a task).
unfoldable pub remove_task : SharedMemory → (Bool × Task) × SharedMemory
remove_task s =
    if ltb 0 s.priority_count
    then (
      (true, strncpy task_len (get_or s.priority_queue s.priority_head blank)),
      record s { priority_head = (s.priority_head + 1) % k; priority_count = s.priority_count - 1 },
    )
    else (
      (false, strncpy task_len (get_or s.normal_queue s.normal_head blank)),
      record s { normal_head = (s.normal_head + 1) % k; normal_count = s.normal_count - 1 },
    )

-- The aging part of the manager's critical section: the oldest normal task goes to the end of the
-- priority queue.
unfoldable pub age_task : SharedMemory → SharedMemory
age_task s =
    let aging_task = strncpy task_len (get_or s.normal_queue s.normal_head blank) in
    if ltb 0 s.normal_count
    then record s {
      normal_head = (s.normal_head + 1) % k;
      normal_count = s.normal_count - 1;
      priority_queue = set s.priority_queue s.priority_tail (strncpy task_len aging_task);
      priority_tail = (s.priority_tail + 1) % k;
      priority_count = s.priority_count + 1;
    }
    else s

-- A producer's values of `rand()` for one task: ten for the characters, and one for the priority.
abbrev pub task_of : (ℕ → ℕ) → Task
task_of rand = generate_random_string rand 10

abbrev pub is_priority_of : (ℕ → ℕ) → Bool
is_priority_of rand = ltb (rand 10 % 100) 30

abbrev pub store : Store
store = record {
  Shared = SharedMemory;
  Draw = ℕ → ℕ;
  Taken = Bool × Task;
  insert = λ rand s. insert_task (is_priority_of rand) (task_of rand) s;
  remove = remove_task;
  age = age_task;
}

-- What the manager prints in its monitoring part, from the memory it sees at that moment.
pub record Report : Type 0 where
  pub free_slots : ℕ
  pub total_full : ℕ
  pub in_priority : ℕ
  pub in_normal : ℕ
  pub inconsistency_warning : Bool

unfoldable pub monitor : Memory store → Report
monitor m =
    let total_tasks = m.shared.priority_count + m.shared.normal_count in
    record {
      free_slots = m.empty;
      total_full = m.full;
      in_priority = m.shared.priority_count;
      in_normal = m.shared.normal_count;
      inconsistency_warning = not (total_tasks == m.full);
    }
