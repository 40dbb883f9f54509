-- ===== src/Tasks/System/Progress.antt =====
-- lab5 does not deadlock while a consumer and an unfinished producer are there.
use sys_op.Prelude.{
  ℕ, zero, suc, ◌<◌, ◌≡◌, ◌≢◌, none, some, List, get_elem?, total, total_find, arith, dec_lt, All,
  ◌⊎◌, inl, inr, refl,
}
use sys_op.Tasks.Store.{Store, Implements}
use sys_op.Tasks.Process.{
  Memory, Producer, Consumer, Manager, making, want_slot, inserting, unlocking, finished, want_task,
  removing, aging, monitoring, producer_step, consumer_step, manager_step,
}
use sys_op.Tasks.System.{
  Process, producer, consumer, manager, System, process_step, IsStart, run, init,
}
use sys_op.Tasks.System.Invariant.{critical, reserved, uncounted, Inv}
use sys_op.Tasks.System.Invariant.Steps.{run-Inv, init-Inv}

module _ {S : Store} where
  open S use {Draw}

  -- The process is not blocked and has not exited.
  abbrev pub CanCall : Memory S → Process S → Type 0
  CanCall m p = (d : Draw) → process_step S d p m ≢ none

  -- Where a call can be made whatever holds of the memory.
  abbrev pub IsLive : Process S → Type 0
  IsLive (producer finished) = ⊥
  IsLive _ = Unit

  critical-CanCall : (m : Memory S) (p : Process S) → 0 < critical p → CanCall m p
  unfolding process_step producer_step consumer_step manager_step
  critical-CanCall m (producer (inserting d left)) h _ = cc
  critical-CanCall m (producer (unlocking left)) h _ = cc
  critical-CanCall m (consumer removing) h _ = cc
  critical-CanCall m (consumer (unlocking t)) h _ = cc
  critical-CanCall m (manager aging) h _ = cc
  critical-CanCall m (manager monitoring) h _ = cc
  critical-CanCall m (manager Manager.unlocking) h _ = cc
  critical-CanCall m _ h _ = absurd (omega arith)

  -- With the mutex free, only the two counting semaphores can block.
  producer-CanCall :
      (m : Memory S) (p : Producer S)
      → 0 < m.mutex
      → ((p ≢ finished) × (0 < m.empty)
          ⊎ (0 < reserved {S = S} (producer p))
          ⊎ (0 < uncounted {S = S} (producer p)))
      → CanCall m (producer p)
  unfolding process_step producer_step
  producer-CanCall m (want_slot d left) h e _ = ground arith
  producer-CanCall m (Producer.want_lock d left) h e _ = ground arith
  producer-CanCall m finished h (inl (live, _)) _ = absurd (live refl)
  producer-CanCall m finished h (inr e) _ = absurd (ground arith)
  producer-CanCall m (making zero) h e _ = cc
  producer-CanCall m (making (suc left)) h e _ = cc
  producer-CanCall m _ h e _ = cc

  consumer-CanCall :
      (m : Memory S) (p : Consumer S)
      → 0 < m.mutex
      → ((0 < m.full) ⊎ (0 < reserved {S = S} (consumer p)) ⊎ (0 < uncounted {S = S} (consumer p)))
      → CanCall m (consumer p)
  unfolding process_step consumer_step
  consumer-CanCall m want_task h e _ = ground arith
  consumer-CanCall m Consumer.want_lock h e _ = ground arith
  consumer-CanCall m _ h e _ = cc

  -- A process that has a slot or a task in hand is not blocked by a counting semaphore.
  holder-CanCall :
      (m : Memory S) (p : Process S)
      → 0 < m.mutex
      → (0 < reserved p) ⊎ (0 < uncounted p)
      → CanCall m p
  holder-CanCall m (producer p) h e = producer-CanCall m p h (inr e)
  holder-CanCall m (consumer p) h e = consumer-CanCall m p h (inr e)
  holder-CanCall m (manager p) h e = absurd (ground arith)

  -- Some process of the system can make its next call.
  abbrev pub SomeCall : System S → Type 0
  SomeCall s = (i : ℕ) × (p : Process S) × (get_elem? s.procs i ≡ some p) × CanCall s.mem p

module _ {S : Store} (I : Implements S) (s : System S) (inv : Inv I s) where
  open I use {cap, cap_pos, size}

  at_weight :
      (w : Process S → ℕ)
      → ((p : Process S) → 0 < w p → CanCall s.mem p)
      → 0 < total w s.procs
      → SomeCall s
  at_weight w can h = let (i, p, at, pos) = total_find w s.procs h in (i, p, at, can p pos)

  -- With the mutex free and nothing in hand, either a slot or a task is free.
  idle-SomeCall :
      (i j : ℕ) (p : Producer S) (c : Consumer S)
      → get_elem? s.procs i ≡ some (producer p)
      → p ≢ finished
      → get_elem? s.procs j ≡ some (consumer c)
      → 0 < s.mem.mutex
      → total reserved s.procs ≡ 0
      → total uncounted s.procs ≡ 0
      → SomeCall s
  idle-SomeCall i j p c hp live hc free no_slot no_task = elim (dec_lt 0 s.mem.full) [
    | yes full ↦ (j, consumer c, hc, consumer-CanCall s.mem c free (inl full))
    | no empty ↦ (
      i,
      producer p,
      hp,
      producer-CanCall s.mem p free (inl (live, omega (arith, inv.slots, inv.tasks, cap_pos))),
    )
  ]

  pub someone_can_call :
      (i j : ℕ) (p : Producer S) (c : Consumer S)
      → get_elem? s.procs i ≡ some (producer p)
      → p ≢ finished
      → get_elem? s.procs j ≡ some (consumer c)
      → SomeCall s
  someone_can_call i j p c hp live hc = elim (dec_lt 0 s.mem.mutex) [
    | no taken ↦ at_weight critical (critical-CanCall s.mem) (omega (arith, inv.lock))
    | yes free ↦ elim (dec_lt 0 (total reserved s.procs)) [
      | yes held ↦ at_weight reserved (λ q pos. holder-CanCall s.mem q free (inl pos)) held
      | no no_slot ↦ elim (dec_lt 0 (total uncounted s.procs)) [
        | yes held ↦ at_weight uncounted (λ q pos. holder-CanCall s.mem q free (inr pos)) held
        | no no_task ↦ idle-SomeCall i j p c hp live hc free (omega arith) (omega arith)
      ]
    ]
  ]

-- In every state that the programs of lab5 can reach, if a producer has not finished and a consumer
-- is there, then some process is not blocked: the semaphores never deadlock.
pub no_deadlock :
    {S : Store} (I : Implements S) (s₀ : Store.Shared S)
    → I.Holds s₀ I.empty_model
    → (ps : List (Process S)) → All (IsStart S) ps
    → (picks : List (ℕ × S.Draw)) → (i j : ℕ) (p : Producer S) (c : Consumer S)
    → get_elem? (run S picks (init S I.cap s₀ ps)).procs i ≡ some (producer p)
    → p ≢ finished
    → get_elem? (run S picks (init S I.cap s₀ ps)).procs j ≡ some (consumer c)
    → SomeCall (run S picks (init S I.cap s₀ ps))
no_deadlock I s₀ h ps starts picks =
    someone_can_call I _ (run-Inv I picks _ (init-Inv I s₀ ps h starts))
