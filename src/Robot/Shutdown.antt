-- ===== src/Robot/Shutdown.antt =====
-- The shutdown of lab6: a thread that waits in `buffer_pop` of lab6/src/common.c, the camera that
-- feeds its buffer, and `handle_sigint` of lab6/src/program2.c and program3.c, which sets
-- `is_running` and then broadcasts, without the buffer's mutex. pthread_cond_wait returns here only
-- when it is woken by a signal or the broadcast; POSIX allows that it returns without.
pub mod Calls
pub mod Fates
use sys_op.Prelude.{
  ℕ, ◌+◌, ◌-◌, ◌==◌, ◌≡◌, ◌≢◌, refl, List, [], ◌∷◌, Bool, true, false, not, ◌&&◌, if◌then◌else◌,
}

-- Where the thread stands in `buffer_pop`.
pub data WaitPc : Type 0 where
  entering : WaitPc  -- pthread_mutex_lock
  checking : WaitPc  -- the test of the `while`
  going_to_wait : WaitPc  -- the test was true, and pthread_cond_wait is next
  asleep : WaitPc  -- inside pthread_cond_wait
  woken : WaitPc  -- inside pthread_cond_wait, to lock the mutex again
  returned : Bool → WaitPc

-- The camera at the head of its loop, inside `buffer_push`, or past its loop.
pub data FeedPc : Type 0 where
  testing pushing ended : FeedPc

pub record Waiting : Type 0 where
  pub is_running : Bool
  pub count : ℕ
  pub locked : Bool
  pub popper : WaitPc
  pub feeder : FeedPc

abbrev lock : WaitPc → Waiting → Waiting
lock next s = if s.locked then s else record s { locked = true; popper = next }

-- One call of `buffer_pop`.
unfoldable pub popper_at : WaitPc → Waiting → Waiting
popper_at entering s = lock checking s
popper_at checking s =
    if s.count == 0 && s.is_running
    then record s { popper = going_to_wait }
    else if not s.is_running && s.count == 0
    then record s { popper = returned false; locked = false }
    else record s { popper = returned true; locked = false; count = s.count - 1 }
popper_at going_to_wait s = record s { popper = asleep; locked = false }
popper_at asleep s = s
popper_at woken s = lock checking s
popper_at (returned b) s = s

abbrev pub signal : WaitPc → WaitPc
signal asleep = woken
signal p = p

-- One round of the camera: its test, or a `buffer_push` with its pthread_cond_signal.
unfoldable pub feeder_at : FeedPc → Waiting → Waiting
feeder_at testing s = record s { feeder = if s.is_running then pushing else ended }
feeder_at pushing s =
    if s.locked
    then s
    else record s { feeder = testing; count = s.count + 1; popper = signal s.popper }
feeder_at ended s = s

pub data Turn : Type 0 where
  popper feeder : Turn

unfoldable pub step : Turn → Waiting → Waiting
step popper s = popper_at s.popper s
step feeder s = feeder_at s.feeder s

unfoldable pub run : List Turn → Waiting → Waiting
run [] s = s
run (t ∷ ts) s = run ts (step t s)

-- The two steps of `handle_sigint`.
abbrev pub lower_flag : Waiting → Waiting
lower_flag s = record s { is_running = false }

abbrev pub broadcast : Waiting → Waiting
broadcast s = record s { popper = signal s.popper }

-- `handle_sigint`: the flag, what the thread and the camera do meanwhile, and the broadcast.
unfoldable pub handle_sigint : List Turn → Waiting → Waiting
handle_sigint amid s = broadcast (run amid (lower_flag s))

-- A thread that sleeps after the flag is down, with no push under way.
pub record IsStuck (s : Waiting) : Type 0 where
  pub down : s.is_running ≡ false
  pub sleeps : s.popper ≡ asleep
  pub idle : s.feeder ≢ pushing

popper-IsStuck : (p : WaitPc) (s : Waiting) → s.popper ≡ p → IsStuck s → IsStuck (popper_at p s)
unfolding popper_at
popper-IsStuck asleep s e h = h
popper-IsStuck _ s e h = absurd (cc h.sleeps)

feeder-IsStuck : (p : FeedPc) (s : Waiting) → s.feeder ≡ p → IsStuck s → IsStuck (feeder_at p s)
unfolding feeder_at
feeder-IsStuck testing s e h = record { down = h.down; sleeps = h.sleeps; idle = rw h.down (cc) }
feeder-IsStuck pushing s e h = absurd (h.idle e)
feeder-IsStuck ended s e h = h

pub run-IsStuck : (ts : List Turn) (s : Waiting) → IsStuck s → IsStuck (run ts s)
unfolding run step
run-IsStuck [] s h = h
run-IsStuck (popper ∷ ts) s h = run-IsStuck ts _ (popper-IsStuck s.popper s refl h)
run-IsStuck (feeder ∷ ts) s h = run-IsStuck ts _ (feeder-IsStuck s.feeder s refl h)
