-- ===== src/Robot/Level1/Stereo.antt =====
-- The cameras, the synchronizer and the image writer of lab6/src/program1.c.
use sys_op.Prelude.{ℕ, ◌+◌, ◌-◌, ◌==◌, List, [], ◌∷◌, ◌++◌, Bool, true, false, if◌then◌else◌}
use sys_op.Prelude.Double.{Double}
use sys_op.Robot.Time.{Timespec, Frame, is_pair}

-- A camera at the head of its loop, before its `sem_post`, or past its loop.
pub data CameraPc : Type 0 where
  shooting posting ended : CameraPc

pub record Camera : Type 0 where
  pub pc : CameraPc
  pub id : ℕ
  pub frame : Frame

pub data SyncPc : Type 0 where
  testing waiting_left waiting_right checking copying stopped : SyncPc
  comparing publishing : (left right : Frame) → SyncPc

pub data WriterPc : Type 0 where
  testing taking stopped : WriterPc
  writing : (left right : Frame) → WriterPc

-- The semaphores, and what the synchronizer and the image writer share. `published` and `written` are
-- the pairs that the one has put in the slot and that the other has saved, oldest first; no thread
-- reads them.
pub record Hub : Type 0 where
  pub left_cam_sem : ℕ
  pub right_cam_sem : ℕ
  pub sync : SyncPc
  pub sync_left_frame : Frame
  pub sync_right_frame : Frame
  pub has_new_sync_pair : Bool
  pub writer : WriterPc
  pub published : List (Frame × Frame)
  pub written : List (Frame × Frame)

abbrev pub post_left : Hub → Hub
post_left h = record h { left_cam_sem = h.left_cam_sem + 1 }

abbrev pub post_right : Hub → Hub
post_right h = record h { right_cam_sem = h.right_cam_sem + 1 }

-- One call of a camera thread: the frame it takes, with the time it reads, or its post.
unfoldable pub camera_at : CameraPc → Bool → Timespec → Camera → Camera
camera_at shooting is_running now c =
    if is_running
    then record c {
      pc = posting;
      id = c.id + 1;
      frame = record { frame_id = c.id; timestamp = now };
    }
    else record c { pc = ended }
camera_at posting is_running now c = record c { pc = shooting }
camera_at ended is_running now c = c

abbrev pub posted : CameraPc → (Hub → Hub) → Hub → Hub
posted shooting post h = h
posted posting post h = post h
posted ended post h = h

-- One call of the image writer.
unfoldable pub writer_at : WriterPc → Bool → Hub → Hub
writer_at WriterPc.testing is_running h = record h {
  writer = if is_running then WriterPc.taking else WriterPc.stopped;
}
writer_at WriterPc.taking is_running h =
    if h.has_new_sync_pair
    then record h {
      writer = WriterPc.writing h.sync_left_frame h.sync_right_frame;
      has_new_sync_pair = false;
    }
    else record h { writer = WriterPc.testing }
writer_at (WriterPc.writing left right) is_running h = record h {
  writer = WriterPc.testing;
  written = h.written ++ ((left, right) ∷ []);
}
writer_at WriterPc.stopped is_running h = h

module _ (fl : Double) where
  -- One call of the synchronizer, beside the cameras' frames.
  unfoldable pub sync_at : SyncPc → Bool → Frame → Frame → Hub → Hub
  sync_at SyncPc.testing is_running l r h = record h {
    sync = if is_running then SyncPc.waiting_left else SyncPc.stopped;
  }
  sync_at SyncPc.waiting_left is_running l r h =
      if h.left_cam_sem == 0
      then h
      else record h { sync = SyncPc.waiting_right; left_cam_sem = h.left_cam_sem - 1 }
  sync_at SyncPc.waiting_right is_running l r h =
      if h.right_cam_sem == 0
      then h
      else record h { sync = SyncPc.checking; right_cam_sem = h.right_cam_sem - 1 }
  sync_at SyncPc.checking is_running l r h = record h {
    sync = if is_running then SyncPc.copying else SyncPc.stopped;
  }
  sync_at SyncPc.copying is_running l r h = record h { sync = SyncPc.comparing l r }
  sync_at (SyncPc.comparing left right) is_running l r h = record h {
    sync = if is_pair fl left right then SyncPc.publishing left right else SyncPc.testing;
  }
  sync_at (SyncPc.publishing left right) is_running l r h = record h {
    sync = SyncPc.testing;
    sync_left_frame = left;
    sync_right_frame = right;
    has_new_sync_pair = true;
    published = h.published ++ ((left, right) ∷ []);
  }
  sync_at SyncPc.stopped is_running l r h = h
