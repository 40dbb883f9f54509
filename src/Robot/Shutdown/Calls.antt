-- ===== src/Robot/Shutdown/Calls.antt =====
-- The calls of a thread of lab6 in `buffer_pop`, and its hold of the mutex.
use sys_op.Prelude.{
  ℕ, ◌-◌, ◌==◌, ◌≤◌, ◌≡◌, refl, sym, ap, ◌∙◌, List, [], ◌∷◌, Bool, true, false, Bool-cases, inl,
  inr, arith,
}
use sys_op.Robot.Shutdown.{
  WaitPc, entering, checking, going_to_wait, asleep, woken, returned, FeedPc, testing, pushing,
  ended, Waiting, popper_at, feeder_at, Turn, popper, feeder, signal, step, run,
}

-- A thread that has the mutex.
abbrev pub holds : WaitPc → Bool
holds checking = true
holds going_to_wait = true
holds _ = false

-- The thread at its call of `buffer_pop`, and the camera at its loop.
abbrev pub begin : ℕ → Waiting
begin count = record {
  is_running = true;
  count = count;
  locked = false;
  popper = entering;
  feeder = testing;
}

unfoldable pub IsHeld : Waiting → Type 0
IsHeld s = s.locked ≡ holds s.popper

pub popper-IsHeld : (p : WaitPc) (s : Waiting) → s.popper ≡ p → IsHeld s → IsHeld (popper_at p s)
unfolding popper_at IsHeld
popper-IsHeld entering s e h = elim (Bool-cases s.locked) [
  | inl z ↦ rw z (sym z ∙ h)
  | inr z ↦ rw z refl
]
popper-IsHeld checking s e h = elim (Bool-cases (s.count == 0)) [
  | inl none ↦ elim (Bool-cases s.is_running) [
    | inl up ↦ rw none (rw up (h ∙ ap holds e))
    | inr down ↦ rw none (rw down refl)
  ]
  | inr some_frame ↦ elim (Bool-cases s.is_running) [
    | inl up ↦ rw some_frame (rw up refl)
    | inr down ↦ rw some_frame (rw down refl)
  ]
]
popper-IsHeld going_to_wait s e h = refl
popper-IsHeld asleep s e h = h
popper-IsHeld woken s e h = elim (Bool-cases s.locked) [
  | inl z ↦ rw z (sym z ∙ h)
  | inr z ↦ rw z refl
]
popper-IsHeld (returned b) s e h = h

pub holds-signal : (p : WaitPc) → holds (signal p) ≡ holds p
holds-signal entering = refl
holds-signal checking = refl
holds-signal going_to_wait = refl
holds-signal asleep = refl
holds-signal woken = refl
holds-signal (returned b) = refl

pub feeder-IsHeld : (p : FeedPc) (s : Waiting) → IsHeld s → IsHeld (feeder_at p s)
unfolding feeder_at IsHeld
feeder-IsHeld testing s h = h
feeder-IsHeld pushing s h = elim (Bool-cases s.locked) [
  | inl z ↦ rw z (sym z ∙ h)
  | inr z ↦ rw z (sym z ∙ (h ∙ sym (holds-signal s.popper)))
]
feeder-IsHeld ended s h = h

step-IsHeld : (t : Turn) (s : Waiting) → IsHeld s → IsHeld (step t s)
unfolding step
step-IsHeld popper s h = popper-IsHeld s.popper s refl h
step-IsHeld feeder s h = feeder-IsHeld s.feeder s h

pub run-IsHeld : (ts : List Turn) (s : Waiting) → IsHeld s → IsHeld (run ts s)
unfolding run
run-IsHeld [] s h = h
run-IsHeld (t ∷ ts) s h = run-IsHeld ts (step t s) (step-IsHeld t s h)

-- The calls that the thread has left once `is_running` is down.
abbrev pub left : WaitPc → ℕ
left entering = 2
left checking = 1
left going_to_wait = 4
left asleep = 3
left woken = 2
left (returned b) = 0

pub record Leaves (n : ℕ) (s : Waiting) : Type 0 where
  pub down : s.is_running ≡ false
  pub held : IsHeld s
  pub near : left s.popper ≤ n

left-signal : (p : WaitPc) → left (signal p) ≤ left p
left-signal entering = omega arith
left-signal checking = omega arith
left-signal going_to_wait = omega arith
left-signal asleep = omega arith
left-signal woken = omega arith
left-signal (returned b) = omega arith

pub feeder-left : (p : FeedPc) (s : Waiting) → left (feeder_at p s).popper ≤ left s.popper
unfolding feeder_at
feeder-left testing s = omega arith
feeder-left pushing s = elim (Bool-cases s.locked) [
  | inl z ↦ rw z (omega arith)
  | inr z ↦ rw z (left-signal s.popper)
]
feeder-left ended s = omega arith

pub feeder-is_running : (p : FeedPc) (s : Waiting) → (feeder_at p s).is_running ≡ s.is_running
unfolding feeder_at
feeder-is_running testing s = refl
feeder-is_running pushing s = elim (Bool-cases s.locked) [ inl z ↦ rw z refl | inr z ↦ rw z refl ]
feeder-is_running ended s = refl

-- A call of the thread, unless it is about to wait or waits.
pub popper-left :
    (p : WaitPc) (s : Waiting)
    → s.popper ≡ p
    → s.is_running ≡ false
    → IsHeld s
    → left p ≤ 2
    → (left (popper_at p s).popper ≤ left p - 1) × ((popper_at p s).is_running ≡ false)
unfolding popper_at IsHeld
popper-left entering s e down h le = rw (h ∙ ap holds e) (omega arith, down)
popper-left checking s e down h le = elim (Bool-cases (s.count == 0)) [
  | inl none ↦ rw none (rw down (omega arith, refl))
  | inr some_frame ↦ rw some_frame (rw down (omega arith, refl))
]
popper-left going_to_wait s e down h le = absurd (omega arith)
popper-left asleep s e down h le = absurd (omega arith)
popper-left woken s e down h le = rw (h ∙ ap holds e) (omega arith, down)
popper-left (returned b) s e down h le = (rw e (omega arith), down)
