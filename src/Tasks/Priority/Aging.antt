-- ===== src/Tasks/Priority/Aging.antt =====
-- The manager of lab5/zad3: aging keeps a normal task from starving, and what monitoring reports.
use sys_op.Prelude.{
  ℕ, suc, ◌+◌, ◌≤◌, ◌<◌, ◌≡◌, refl, List, [], ◌∷◌, ◌++◌, Bool, true, false, length, arith, sym, ap,
  append_assoc, append-nil, All, drop, ◌⊎◌, inl, inr, total, if◌then◌else◌, length-append, ◌↔◌, ◌-◌,
  ◌∙◌, drop-append, drop-eq-cons, drop-eq-nil, drop_past,
}
use sys_op.Tasks.Process.{Event, inserted, removed, aged}
use sys_op.Tasks.System.{Process, System, IsStart, run, init}
use sys_op.Tasks.System.Invariant.{Inv, IsHistory, replay, uncounted}
use sys_op.Tasks.System.Invariant.Steps.{run-Inv, init-Inv}
use sys_op.Tasks.Text.{Task}
use sys_op.Tasks.Priority.{store, zeroed, k, task_of, is_priority_of, monitor}
use sys_op.Tasks.Priority.Laws.{
  Queues, put_task, take_from, shift_from, implements, zeroed-Holds, Holds,
}

-- How often the manager has aged a task.
unfoldable pub agings : List (Event store) → ℕ
agings [] = 0
agings (inserted rand ∷ log) = agings log
agings (removed t ∷ log) = agings log
agings (aged ∷ log) = suc (agings log)

-- The normal tasks that went in, oldest first.
pub normal_sent : List (Event store) → List Task
normal_sent [] = []
normal_sent (inserted rand ∷ log) =
    if is_priority_of rand then normal_sent log else normal_sent log ++ (task_of rand ∷ [])
normal_sent (removed t ∷ log) = normal_sent log
normal_sent (aged ∷ log) = normal_sent log

-- How far a normal queue has moved on that held `n`, to which `came` have come since and that was
-- aged `c` times: `d` tasks have left it.
record Passed (n came : List Task) (c : ℕ) (now : List Task) : Type 0 where
  d : ℕ
  rest : drop d (n ++ came) ≡ now
  small : d ≤ length (n ++ came)
  far : (c ≤ d) ⊎ (length n ≤ d)

module _ (n came : List Task) (c : ℕ) where
  pass-put_task :
      (b : Bool) (t : Task) (q : Queues)
      → Passed n came c q.normal
      → Passed n (if b then came else came ++ (t ∷ [])) c (put_task b t q).normal
  pass-put_task true t q h = h
  pass-put_task false t q h = record {
    d = h.d;
    rest =
        rw (← append_assoc n came (t ∷ []))
          (drop-append h.d (n ++ came) (t ∷ []) h.small ∙ ap (λ l. l ++ (t ∷ [])) h.rest);
    small =
        rw (← append_assoc n came (t ∷ []))
          (omega (arith, h.small, length-append (n ++ came) (t ∷ [])));
    far = h.far;
  }

  -- One more task leaves the queue.
  pass_one : (t : Task) (now : List Task) → Passed n came c (t ∷ now) → Passed n came (suc c) now
  pass_one t now h =
      let (rest, lt) = drop-eq-cons h.d (n ++ came) now t h.rest in
      record { d = suc h.d; rest = rest; small = lt; far = ground (arith, h.far) }

  pass_none : Passed n came c [] → Passed n came (suc c) []
  pass_none h = record {
    d = h.d;
    rest = h.rest;
    small = h.small;
    far = inr (omega (arith, drop-eq-nil h.d (n ++ came) h.rest, length-append n came));
  }

  pass_less : (now : List Task) → Passed n came (suc c) now → Passed n came c now
  pass_less now h = record { d = h.d; rest = h.rest; small = h.small; far = ground (arith, h.far) }

  pass-take_from :
      (p now : List Task) → Passed n came c now → Passed n came c (take_from p now).1.normal
  pass-take_from (t ∷ p) now h = h
  pass-take_from [] (t ∷ now) h = pass_less now (pass_one t now h)
  pass-take_from [] [] h = h

  pass-shift_from :
      (p now : List Task) → Passed n came c now → Passed n came (suc c) (shift_from p now).normal
  pass-shift_from p [] h = pass_none h
  pass-shift_from p (t ∷ now) h = pass_one t now h

passed :
    (log es : List (Event store))
    → Passed
        (replay implements log).normal
        (normal_sent es)
        (agings es)
        (replay implements (es ++ log)).normal
unfolding replay agings normal_sent
passed log [] = record { d = 0; rest = append-nil _; small = omega arith; far = inl (omega arith) }
passed log (inserted rand ∷ es) =
    pass-put_task _ _ _ (is_priority_of rand) (task_of rand) (replay implements (es ++ log))
      (passed log es)
passed log (removed t ∷ es) = pass-take_from _ _ _ _ _ (passed log es)
passed log (aged ∷ es) = pass-shift_from _ _ _ _ _ (passed log es)

-- With as many agings as the queue was long, only tasks that came since are left.
left_over :
    (log es : List (Event store))
    → length (replay implements log).normal ≤ agings es
    → (d : ℕ) × ((replay implements (es ++ log)).normal ≡ drop d (normal_sent es))
left_over log es h =
    let p = passed log es in
    let n = (replay implements log).normal in
    let far : length n ≤ p.d = ground (arith, p.far) in
    (p.d - length n, sym p.rest ∙ drop_past p.d n (normal_sent es) far)

take_from-normal :
    (p n : List Task) → 0 < length p + length n → (take_from p n).0.0 ≡ false → p ≡ []
take_from-normal [] n h e = refl
take_from-normal (t ∷ p) n h e = cc

IsHistory-append :
    (es log : List (Event store)) → IsHistory implements (es ++ log) → IsHistory implements log
IsHistory-append [] log h = h
IsHistory-append (e ∷ es) log h = IsHistory-append es log h.1

module _ (ps : List (Process store)) (starts : All (IsStart store) ps)
    (picks : List (ℕ × (ℕ → ℕ))) where
  abbrev reached : System store
  reached = run store picks (init store k zeroed ps)

  inv : Inv implements reached
  inv = run-Inv implements picks _ (init-Inv implements zeroed ps zeroed-Holds starts)

  -- Aging prevents starvation. When the calls `es` of a run come after the calls `log`, and the
  -- manager has aged in `es` at least as often as the normal queue was long before, then every task
  -- that was in it has left it: the normal queue in shared memory holds only the latest of the
  -- normal tasks that producers have put in since, whatever else the processes have done.
  pub no_starvation :
      (es log : List (Event store))
      → reached.log ≡ es ++ log
      → length (replay implements log).normal ≤ agings es
      → (q : Queues) × (d : ℕ) × Holds reached.mem.shared q × (q.normal ≡ drop d (normal_sent es))
  no_starvation es log e h =
      let (d, rest) = left_over log es h in
      (replay implements reached.log, d, inv.holds, ap (λ l. (replay implements l).normal) e ∙ rest)

  -- In every reachable state the tasks that monitoring counts in the two queues are those that
  -- `full` counts and one for each process that stands between a call on `full` and the critical
  -- section that goes with it; so the warning of inconsistent data is printed exactly if there is
  -- such a process, although the data is consistent.
  pub monitor_warns :
      let r = monitor reached.mem in
      (r.in_priority + r.in_normal ≡ r.total_full + total uncounted reached.procs)
      × ((r.inconsistency_warning ≡ true) ↔ (0 < total uncounted reached.procs))
  unfolding monitor
  monitor_warns = (counted, (λ h. ground (arith, counted), λ h. ground (arith, counted)))
    where
      counted :
          reached.mem.shared.priority_count + reached.mem.shared.normal_count
          ≡ reached.mem.full + total uncounted reached.procs
      counted = omega (arith, inv.tasks, inv.holds.urgent.counted, inv.holds.common.counted)

  -- In every run, whenever a consumer takes a task from the normal queue, the priority queue is
  -- empty at that moment.
  pub priority_first :
      (es log : List (Event store)) (t : Task)
      → reached.log ≡ es ++ (removed (false, t) ∷ log)
      → (replay implements log).priority ≡ []
  priority_first es log t e =
      let ((some_task, first), _) = IsHistory-append es _ (rw e at inv.history) in
      take_from-normal queue.priority queue.normal some_task (sym (ap (λ u. u.0) first))
    where
      queue : Queues
      queue = replay implements log
