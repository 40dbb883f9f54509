-- ===== src/Tasks/System/Kills/Follow.antt =====
-- A run of the processes of lab5 with signals is followed by one without them.
use sys_op.Prelude.{
  ℕ, zero, suc, ◌≤◌, ◌≡◌, refl, sym, ap, subst, ◌∙◌, inl, inr, ◌⊎◌, true, Bool-cases, none, some,
  Option-cases, List, [], ◌∷◌, ◌++◌, get_elem?, set, get_elem?-set_self, get_elem?-set_ne, total,
  total-get, total-set, arith, ℕ_discrete,
}
use mathlib.Core.Option.{some-injective}
use sys_op.Tasks.Store.{Store, Implements}
use sys_op.Tasks.Process.{
  Producer, Consumer, Manager, inserting, removing, aging, finished, producer_step,
}
use sys_op.Tasks.System.{
  Process, producer, consumer, manager, System, Outcome, process_step, step, run, next,
}
use sys_op.Tasks.System.Invariant.{critical, Inv}
use sys_op.Tasks.System.Invariant.Steps.{step-Inv}
use sys_op.Tasks.System.Interrupt.{cleanup_handler, IsLost, step-IsLost}
use sys_op.Tasks.System.Kills.{
  writes, Happening, call, signal, tear, happen, run_all, Gone, Alive, Sim, Single, Alive-fewer,
  over, reshare, process-reshare,
}

set_value : {A : Type 0} (xs : List A) (i : ℕ) (v x : A) → get_elem? (set xs i v) i ≡ some x → x ≡ v
set_value [] i v x e = absurd (ground arith)
set_value (y ∷ xs) zero v x e = sym (some-injective v x e)
set_value (y ∷ xs) (suc i) v x e = set_value xs i v x e

module _ (S : Store) where
  open S use {Shared, Draw, Taken}

  -- A process that both have makes its call in both.
  next-Alive :
      (s t : System S) (i : ℕ) (p p' : Process S)
      → get_elem? s.procs i ≡ some p
      → get_elem? t.procs i ≡ some p
      → Alive S s t
      → Alive S (record s { procs = set s.procs i p' }) (record t { procs = set t.procs i p' })
  next-Alive s t i p p' e f alive j q at = elim (ℕ_discrete i j) [
    | yes same ↦
        let here : get_elem? (set s.procs i p') j ≡ some p' =
          subst (λ k. get_elem? (set s.procs i p') k ≡ some p') same
            (get_elem?-set_self s.procs i p' p e) in
        let there : get_elem? (set t.procs i p') j ≡ some p' =
          subst (λ k. get_elem? (set t.procs i p') k ≡ some p') same
            (get_elem?-set_self t.procs i p' p f) in
        inr (there ∙ sym here ∙ at)
    | no ne ↦ elim (alive j q (sym (get_elem?-set_ne s.procs i j p' ne) ∙ at)) [
      | inl gone ↦ inl gone
      | inr live ↦ inr (get_elem?-set_ne t.procs i j p' ne ∙ live)
    ]
  ]

  -- With the same shared memory.
  next-Sim :
      (s t : System S) (i : ℕ) (p : Process S) (o : Outcome S)
      → get_elem? s.procs i ≡ some p
      → get_elem? t.procs i ≡ some p
      → Sim S s t
      → Sim S (next S s i o) (next S t i o)
  next-Sim s t i p none e f sim = sim
  next-Sim s t i p (some (m, p', es)) e f sim = record {
    same_mem = refl;
    same_log = ap (λ l. es ++ l) sim.same_log;
    alive = next-Alive s t i p p' e f sim.alive;
    whole = inl refl;
  }

  -- With the mutex gone.
  next-Gone :
      (x : Shared) (s t : System S) (i : ℕ) (p : Process S) (o : Outcome S)
      → get_elem? s.procs i ≡ some p
      → get_elem? t.procs i ≡ some p
      → Gone S (next S s i (reshare S x o))
      → Sim S s t
      → Sim S (next S s i (reshare S x o)) (next S t i o)
  next-Gone x s t i p none e f gone sim = sim
  next-Gone x s t i p (some (m, p', es)) e f gone sim = record {
    same_mem = refl;
    same_log = ap (λ l. es ++ l) sim.same_log;
    alive = next-Alive s t i p p' e f sim.alive;
    whole = inr gone;
  }

  writes-critical : (p : Process S) → writes S p ≡ true → critical p ≡ 1
  writes-critical (producer (inserting d left)) e = refl
  writes-critical (producer (Producer.making left)) e = absurd (cc)
  writes-critical (producer (Producer.want_slot d left)) e = absurd (cc)
  writes-critical (producer (Producer.want_lock d left)) e = absurd (cc)
  writes-critical (producer (Producer.unlocking left)) e = absurd (cc)
  writes-critical (producer (Producer.signalling left)) e = absurd (cc)
  writes-critical (producer finished) e = absurd (cc)
  writes-critical (consumer removing) e = refl
  writes-critical (consumer Consumer.want_task) e = absurd (cc)
  writes-critical (consumer Consumer.want_lock) e = absurd (cc)
  writes-critical (consumer (Consumer.unlocking t)) e = absurd (cc)
  writes-critical (consumer (Consumer.freeing t)) e = absurd (cc)
  writes-critical (consumer (Consumer.printing t)) e = absurd (cc)
  writes-critical (manager aging) e = refl
  writes-critical (manager Manager.sleeping) e = absurd (cc)
  writes-critical (manager Manager.want_lock) e = absurd (cc)
  writes-critical (manager Manager.monitoring) e = absurd (cc)
  writes-critical (manager Manager.unlocking) e = absurd (cc)

  ended-Alive :
      (s t : System S) (i : ℕ)
      → Alive S s t
      → Alive S (record s { procs = set s.procs i (producer finished) }) t
  ended-Alive s t i alive j p at = elim (ℕ_discrete i j) [
    | yes same ↦ inl (
        set_value s.procs i (producer finished) p
          (subst (λ k. get_elem? (set s.procs i (producer finished)) k ≡ some p) (sym same) at))
    | no ne ↦ alive j p (sym (get_elem?-set_ne s.procs i j (producer finished) ne) ∙ at)
  ]

  ended-fewer :
      (s : System S) (i : ℕ)
      → total critical (set s.procs i (producer finished)) ≤ total critical s.procs
  ended-fewer s i =
      Alive-fewer S (record s { procs = set s.procs i (producer finished) }) s
        (ended-Alive s s i (λ j p e. inr e))

  -- The end of a process that is not amid its writes.
  pub cleanup_handler-Sim : (s t : System S) (i : ℕ) → Sim S s t → Sim S (cleanup_handler S i s) t
  unfolding cleanup_handler
  cleanup_handler-Sim s t i sim = record {
    same_mem = sim.same_mem;
    same_log = sim.same_log;
    alive = ended-Alive s t i sim.alive;
    whole = elim sim.whole [
      | inl same ↦ inl same
      | inr (taken, nobody) ↦ inr (taken, omega (arith, ended-fewer s i, nobody))
    ];
  }

  -- The end of a process amid its writes.
  torn-Sim :
      (torn : Shared) (s t : System S) (i : ℕ) (p : Process S)
      → get_elem? s.procs i ≡ some p
      → critical p ≡ 1
      → Single S s
      → Sim S s t
      → Sim S (cleanup_handler S i (record s { mem = record (s.mem) { shared = torn } })) t
  unfolding cleanup_handler
  torn-Sim torn s t i p e inside one sim = record {
    same_mem = ap (over S torn) sim.same_mem;
    same_log = sim.same_log;
    alive = ended-Alive s t i sim.alive;
    whole = inr (
      omega (arith, one, inside, total-get critical s.procs i p e),
      omega (arith, one, inside, total-set critical s.procs i p (producer finished) e),
    );
  }

  pub signal-Sim :
      (torn : Shared) (s t : System S) (i : ℕ)
      → Single S s
      → Sim S s t
      → Sim S (happen S (signal i torn) s) t
  unfolding happen
  signal-Sim torn s t i one sim = elim (Option-cases (get_elem? s.procs i)) [
    | inl e ↦
        subst (λ o. Sim S (cleanup_handler S i (tear S o torn s)) t) (sym e)
          (cleanup_handler-Sim s t i sim)
    | inr (p, e) ↦
        subst (λ o. Sim S (cleanup_handler S i (tear S o torn s)) t) (sym e)
          (elim (Bool-cases (writes S p)) [
            | inl amid ↦ rw amid (torn-Sim torn s t i p e (writes-critical p amid) one sim)
            | inr apart ↦ rw apart (cleanup_handler-Sim s t i sim)
          ])
  ]

  -- What follows a step of `s`: `t` waits, or makes the call of a process that both have.
  abbrev pub Follows : Happening S → System S → System S → Type 0
  Follows h s t =
      Sim S (happen S h s) t
      ⊎ ((i : ℕ) × (d : Draw) × (p : Process S) × (get_elem? s.procs i ≡ some p)
          × (get_elem? t.procs i ≡ some p)
          × Sim S (happen S h s) (step S t (i, d)))

  pub ended_waits :
      (s : System S) (i : ℕ) (d : Draw) (p : Process S)
      → get_elem? s.procs i ≡ some p
      → p ≡ producer finished
      → step S s (i, d) ≡ s
  unfolding step process_step producer_step
  ended_waits s i d p e gone = rw (e, step) (rw gone refl)

  pub called :
      (s : System S) (i : ℕ) (d : Draw) (p : Process S)
      → get_elem? s.procs i ≡ some p
      → step S s (i, d) ≡ next S s i (process_step S d p s.mem)
  unfolding step
  called s i d p e = rw (e, step) refl

  pub absent_waits :
      (s : System S) (i : ℕ) (d : Draw) → get_elem? s.procs i ≡ none → step S s (i, d) ≡ s
  unfolding step
  absent_waits s i d e = rw (e, step) refl

  step-Gone : (s : System S) (i : ℕ) (d : Draw) → Gone S s → Gone S (step S s (i, d))
  step-Gone s i d (taken, nobody) =
      let lost : IsLost S s.log s.mem.shared s = record {
        taken = taken;
        nobody = nobody;
        same_log = refl;
        same_memory = refl;
      } in
      let after = step-IsLost S s.log s.mem.shared s (i, d) lost in (after.taken, after.nobody)

  -- A call of a process that both have.
  call-Sim :
      (s t : System S) (i : ℕ) (d : Draw) (p : Process S)
      → get_elem? s.procs i ≡ some p
      → get_elem? t.procs i ≡ some p
      → Sim S s t
      → Sim S (step S s (i, d)) (step S t (i, d))
  call-Sim s t i d p e f sim = elim sim.whole [
    | inl same ↦
        let alike : process_step S d p s.mem ≡ process_step S d p t.mem =
          ap (process_step S d p) (sim.same_mem ∙ ap (λ x. over S x t.mem) same) in
        subst (λ w. Sim S w (step S t (i, d))) (sym (called s i d p e ∙ ap (next S s i) alike))
          (subst (λ w. Sim S (next S s i (process_step S d p t.mem)) w) (sym (called t i d p f))
            (next-Sim s t i p (process_step S d p t.mem) e f sim))
    | inr (taken, nobody) ↦
        let outside : critical p ≡ 0 = omega (arith, total-get critical s.procs i p e, nobody) in
        let alike : process_step S d p s.mem ≡ reshare S s.mem.shared (process_step S d p t.mem) =
          ap (process_step S d p) sim.same_mem ∙ process-reshare S s.mem.shared d p t.mem outside in
        let is : step S s (i, d) ≡ next S s i (reshare S s.mem.shared (process_step S d p t.mem)) =
          called s i d p e ∙ ap (next S s i) alike in
        let gone : Gone S (step S s (i, d)) = step-Gone s i d (taken, nobody) in
        subst (λ w. Sim S w (step S t (i, d))) (sym is)
          (subst (λ w. Sim S (next S s i (reshare S s.mem.shared (process_step S d p t.mem))) w)
            (sym (called t i d p f))
            (next-Gone s.mem.shared s t i p (process_step S d p t.mem) e f (subst (Gone S) is gone)
              sim))
  ]

  pub happen-Follows : (h : Happening S) (s t : System S) → Single S s → Sim S s t → Follows h s t
  unfolding happen
  happen-Follows (signal i torn) s t one sim = inl (signal-Sim torn s t i one sim)
  happen-Follows (call i d) s t one sim = elim (Option-cases (get_elem? s.procs i)) [
    | inl e ↦ inl (subst (λ w. Sim S w t) (sym (absent_waits s i d e)) sim)
    | inr (p, e) ↦ elim (sim.alive i p e) [
      | inl gone ↦ inl (subst (λ w. Sim S w t) (sym (ended_waits s i d p e gone)) sim)
      | inr live ↦ inr (i, d, p, e, live, call-Sim s t i d p e live sim)
    ]
  ]

module _ {S : Store} (I : Implements S) where
  open S use {Draw}

  -- A run without signals has one process in its critical section, or a post for it on `mutex`.
  pub Sim-Single : (s t : System S) → Sim S s t → Inv I t → Single S s
  Sim-Single s t sim inv =
      omega (arith, inv.lock, Alive-fewer S s t sim.alive, ap (λ m. m.mutex) sim.same_mem)

  -- A run with signals, and one without.
  pub run_all-Sim :
      (hs : List (Happening S)) (s t : System S)
      → Sim S s t
      → Inv I t
      → (picks : List (ℕ × Draw)) × Sim S (run_all S hs s) (run S picks t)
  unfolding run run_all
  run_all-Sim [] s t sim inv = ([], sim)
  run_all-Sim (h ∷ hs) s t sim inv = elim (happen-Follows S h s t (Sim-Single s t sim inv) sim) [
    | inl waits ↦ run_all-Sim hs (happen S h s) t waits inv
    | inr (i, d, p, _, _, follows) ↦
        let (picks, rest) =
          run_all-Sim hs (happen S h s) (step S t (i, d)) follows (step-Inv I t (i, d) inv) in
        ((i, d) ∷ picks, rest)
  ]
