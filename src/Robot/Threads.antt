-- ===== src/Robot/Threads.antt =====
-- lab6/src/program3.c: the threads of the robot, each a call at a time, over the shared buffers,
-- counters and the robot's state. A thread that would block stays where it is.
use sys_op.Prelude.{ℕ, ◌+◌, ◌-◌, ◌==◌, ltb, List, [], ◌∷◌, ◌++◌, Bool, ◌||◌, if◌then◌else◌}
use sys_op.Robot.Buffer.{
  FrameBuffer, Pop, waits, aborts, pops, buffer_size, buffer_push, buffer_pop,
}
use sys_op.Robot.Time.{Timespec, Frame}

abbrev pub no_frame : Frame
no_frame = record { frame_id = 0; timestamp = record { tv_sec = 0; tv_nsec = 0 } }

abbrev pub Frames : Type 0
Frames = FrameBuffer no_frame

-- A pair of atomic counters: since the start, and since the watchdog's last look. `seen` is the sum
-- of what the watchdog has read; no thread reads it.
pub record Counter : Type 0 where
  pub total : ℕ
  pub recent : ℕ
  pub seen : ℕ

-- Where a thread stands that makes something and then counts it; `making` is the test of is_running
-- with what is made behind it, and `pushing` a camera's call of `buffer_push`.
pub data MakerPc : Type 0 where
  making counting_total counting_recent ended : MakerPc
  pushing : Frame → MakerPc

pub record Camera : Type 0 where
  pub pc : MakerPc
  pub id : ℕ
  pub counter : Counter

-- One call of a camera thread; `now` is the time that it reads.
unfoldable pub camera_at : MakerPc → Bool → Timespec → Camera → Frames → Camera × Frames
camera_at making is_running now c buf =
    if is_running
    then (
      record c { pc = pushing (record { frame_id = c.id; timestamp = now }); id = c.id + 1 },
      buf,
    )
    else (record c { pc = ended }, buf)
camera_at (pushing f) is_running now c buf =
    (record c { pc = counting_total }, buffer_push no_frame buf f)
camera_at counting_total is_running now c buf = (
  record c { pc = counting_recent; counter = record (c.counter) { total = c.counter.total + 1 } },
  buf,
)
camera_at counting_recent is_running now c buf =
    (record c { pc = making; counter = record (c.counter) { recent = c.counter.recent + 1 } }, buf)
camera_at ended is_running now c buf = (c, buf)

pub data SyncPc : Type 0 where
  testing : SyncPc
  popping_left : SyncPc
  popping_right : (left : Frame) → SyncPc
  comparing : (left right : Frame) → SyncPc
  pushing_left : (left right : Frame) → SyncPc
  pushing_right : (right : Frame) → SyncPc
  stopped : SyncPc

pub data WriterPc : Type 0 where
  testing : WriterPc
  popping_left : WriterPc
  popping_right : (left : Frame) → WriterPc
  writing : (left right : Frame) → WriterPc
  stopped : WriterPc

-- What the synchronizer and the image writer share. `published` and `written` are the pairs that the
-- one has begun to push and that the other has saved, oldest first; `overflowed` tells whether a
-- push has dropped a frame. No thread reads `published` and `overflowed`.
pub record Pairs : Type 0 where
  pub sync_left_buf : Frames
  pub sync_right_buf : Frames
  pub sync : SyncPc
  pub writer : WriterPc
  pub published : List (Frame × Frame)
  pub written : List (Frame × Frame)
  pub overflowed : Bool

-- A push of the synchronizer, with the note whether it drops a frame.
abbrev pub push_left : Frame → Pairs → Pairs
push_left f p = record p {
  sync_left_buf = buffer_push no_frame p.sync_left_buf f;
  overflowed = p.overflowed || (p.sync_left_buf.count == buffer_size);
}

abbrev pub push_right : Frame → Pairs → Pairs
push_right f p = record p {
  sync_right_buf = buffer_push no_frame p.sync_right_buf f;
  overflowed = p.overflowed || (p.sync_right_buf.count == buffer_size);
}

-- The synchronizer goes to another call.
abbrev pub at : SyncPc → Pairs → Pairs
at pc p = record p { sync = pc }

-- What the image writer does with the result of its `buffer_pop`.
abbrev pub took_left : Pairs → Pop no_frame → Pairs
took_left p waits = p
took_left p aborts = record p { writer = WriterPc.stopped }
took_left p (pops left buf) = record p { sync_left_buf = buf; writer = WriterPc.popping_right left }

abbrev pub took_right : Frame → Pairs → Pop no_frame → Pairs
took_right left p waits = p
took_right left p aborts = record p { writer = WriterPc.stopped }
took_right left p (pops right buf) = record p {
  sync_right_buf = buf;
  writer = WriterPc.writing left right;
}

-- One call of the image writer. The two files that a round saves hold the two frames' numbers.
unfoldable pub writer_at : WriterPc → Bool → Pairs → Pairs
writer_at WriterPc.testing is_running p = record p {
  writer = if is_running then WriterPc.popping_left else WriterPc.stopped;
}
writer_at WriterPc.popping_left is_running p =
    took_left p (buffer_pop no_frame p.sync_left_buf is_running)
writer_at (WriterPc.popping_right left) is_running p =
    took_right left p (buffer_pop no_frame p.sync_right_buf is_running)
writer_at (WriterPc.writing left right) is_running p = record p {
  writer = WriterPc.testing;
  written = p.written ++ ((left, right) ∷ []);
}
writer_at WriterPc.stopped is_running p = p

-- Where the watchdog stands in a round, with what it has read.
pub data WatchdogPc : Type 0 where
  testing : WatchdogPc
  woken : WatchdogPc
  reading_left : WatchdogPc
  reading_right : (l_frames : ℕ) → WatchdogPc
  reading_states : (l_frames r_frames : ℕ) → WatchdogPc
  stopped : WatchdogPc

pub data Warning : Type 0 where
  left_camera_slow right_camera_slow robot_state_slow : (rate : ℕ) → Warning

-- The warnings of one round.
unfoldable pub warnings : ℕ → ℕ → ℕ → List Warning
warnings l_frames r_frames r_states =
    (if ltb l_frames (25 - 2) then left_camera_slow l_frames ∷ [] else [])
    ++ ((if ltb r_frames (25 - 2) then right_camera_slow r_frames ∷ [] else [])
        ++ (if ltb r_states (100 - 5) then robot_state_slow r_states ∷ [] else []))

-- atomic_exchange(&recent, 0): the value read, and the counter after it.
abbrev pub exchange : Counter → ℕ × Counter
exchange c = (c.recent, record c { recent = 0; seen = c.seen + c.recent })
