-- ===== src/Robot/Level1/Stop.antt =====
-- The end of lab6/src/program1.c: `main` lowers `is_running`, posts both semaphores and joins.
pub mod Posts
pub mod Joins
pub mod Exit
use sys_op.Prelude.{
  ℕ, zero, suc, ◌+◌, ◌-◌, ◌<◌, ◌≤◌, ◌≡◌, ◌==◌, refl, sym, ap, ◌∙◌, subst, List, [], ◌∷◌, ◌++◌, Bool,
  true, false, not, ◌&&◌, if◌then◌else◌, arith, Bool-cases, inl, inr,
}
use sys_op.Prelude.Double.{Double}
use sys_op.Robot.Time.{Timespec, Frame, is_pair}
use sys_op.Robot.Level1.Stereo.{
  CameraPc, shooting, posting, ended, Camera, camera_at, posted, post_left, post_right, SyncPc,
  WriterPc, Hub, writer_at, sync_at,
}

-- How many calls a thread has still to make once `is_running` is false, if none of them blocks.
abbrev pub camera_rank : CameraPc → ℕ
camera_rank shooting = 1
camera_rank posting = 2
camera_rank ended = 0

abbrev pub sync_rank : SyncPc → ℕ
sync_rank SyncPc.testing = 1
sync_rank SyncPc.waiting_left = 3
sync_rank SyncPc.waiting_right = 2
sync_rank SyncPc.checking = 1
sync_rank SyncPc.copying = 4
sync_rank (SyncPc.comparing l r) = 3
sync_rank (SyncPc.publishing l r) = 2
sync_rank SyncPc.stopped = 0

abbrev pub writer_rank : WriterPc → ℕ
writer_rank WriterPc.testing = 1
writer_rank WriterPc.taking = 3
writer_rank (WriterPc.writing l r) = 2
writer_rank WriterPc.stopped = 0

abbrev pub flag : Bool → ℕ
flag true = 1
flag false = 0

-- With `n` and `m` posts on the semaphores, made or to come from `main`, none blocks the synchronizer
-- for good.
abbrev pub Fed : SyncPc → ℕ → ℕ → Type 0
Fed SyncPc.waiting_left n m = (0 < n) × (0 < m)
Fed SyncPc.waiting_right n m = 0 < m
Fed _ n m = Unit

pub Fed-mono : (x : SyncPc) (n m n' m' : ℕ) → n ≤ n' → m ≤ m' → Fed x n m → Fed x n' m'
Fed-mono SyncPc.waiting_left n m n' m' ln lm (l, r) = (omega arith, omega arith)
Fed-mono SyncPc.waiting_right n m n' m' ln lm r = omega arith
Fed-mono SyncPc.testing n m n' m' ln lm f = tt
Fed-mono SyncPc.checking n m n' m' ln lm f = tt
Fed-mono SyncPc.copying n m n' m' ln lm f = tt
Fed-mono (SyncPc.comparing l r) n m n' m' ln lm f = tt
Fed-mono (SyncPc.publishing l r) n m n' m' ln lm f = tt
Fed-mono SyncPc.stopped n m n' m' ln lm f = tt

-- A camera's call takes no post away, and leaves the two other threads where they are.
pub record IsPost (h h' : Hub) : Type 0 where
  pub sync : h'.sync ≡ h.sync
  pub writer : h'.writer ≡ h.writer
  pub left : h.left_cam_sem ≤ h'.left_cam_sem
  pub right : h.right_cam_sem ≤ h'.right_cam_sem

pub posted-left : (pc : CameraPc) (h : Hub) → IsPost h (posted pc post_left h)
posted-left shooting h = record {
  sync = refl;
  writer = refl;
  left = omega arith;
  right = omega arith;
}
posted-left posting h = record {
  sync = refl;
  writer = refl;
  left = omega arith;
  right = omega arith;
}
posted-left ended h = record { sync = refl; writer = refl; left = omega arith; right = omega arith }

pub posted-right : (pc : CameraPc) (h : Hub) → IsPost h (posted pc post_right h)
posted-right shooting h = record {
  sync = refl;
  writer = refl;
  left = omega arith;
  right = omega arith;
}
posted-right posting h = record {
  sync = refl;
  writer = refl;
  left = omega arith;
  right = omega arith;
}
posted-right ended h = record {
  sync = refl;
  writer = refl;
  left = omega arith;
  right = omega arith;
}

pub IsPost-Fed :
    (h h' : Hub) (n m : ℕ)
    → IsPost h h'
    → Fed h.sync (h.left_cam_sem + n) (h.right_cam_sem + m)
    → Fed h'.sync (h'.left_cam_sem + n) (h'.right_cam_sem + m)
IsPost-Fed h h' n m p f = rw p.sync (
    Fed-mono h.sync (h.left_cam_sem + n) (h.right_cam_sem + m) (h'.left_cam_sem + n)
      (h'.right_cam_sem + m) (omega (arith, p.left)) (omega (arith, p.right)) f)

pub writer_at-sync :
    (w : WriterPc) (r : Bool) (h : Hub)
    → ((writer_at w r h).sync ≡ h.sync)
      × ((writer_at w r h).left_cam_sem ≡ h.left_cam_sem)
      × ((writer_at w r h).right_cam_sem ≡ h.right_cam_sem)
unfolding writer_at
writer_at-sync WriterPc.testing r h = (refl, refl, refl)
writer_at-sync WriterPc.taking r h = ground arith
writer_at-sync (WriterPc.writing l x) r h = (refl, refl, refl)
writer_at-sync WriterPc.stopped r h = (refl, refl, refl)

pub camera_at-rank :
    (pc : CameraPc) (now : Timespec) (c : Camera)
    → pc ≡ c.pc
    → camera_rank (camera_at pc false now c).pc ≤ camera_rank pc - 1
unfolding camera_at
camera_at-rank shooting now c e = omega arith
camera_at-rank posting now c e = omega arith
camera_at-rank ended now c e = rw (sym e) (omega arith)

pub writer_at-rank :
    (w : WriterPc) (h : Hub)
    → w ≡ h.writer
    → writer_rank (writer_at w false h).writer ≤ writer_rank w - 1
unfolding writer_at
writer_at-rank WriterPc.testing h e = omega arith
writer_at-rank WriterPc.taking h e = ground arith
writer_at-rank (WriterPc.writing l r) h e = omega arith
writer_at-rank WriterPc.stopped h e = rw (sym e) (omega arith)

nonzero : (n : ℕ) → 0 < n → (n == 0) ≡ false
nonzero n lt = ground arith

module _ (fl : Double) where
  pub sync_at-writer :
      (x : SyncPc) (b : Bool) (l r : Frame) (h : Hub) → (sync_at fl x b l r h).writer ≡ h.writer
  unfolding sync_at
  sync_at-writer SyncPc.testing b l r h = refl
  sync_at-writer SyncPc.waiting_left b l r h = ground arith
  sync_at-writer SyncPc.waiting_right b l r h = ground arith
  sync_at-writer SyncPc.checking b l r h = refl
  sync_at-writer SyncPc.copying b l r h = refl
  sync_at-writer (SyncPc.comparing x y) b l r h = refl
  sync_at-writer (SyncPc.publishing x y) b l r h = refl
  sync_at-writer SyncPc.stopped b l r h = refl

  -- A call of a fed synchronizer brings it nearer to its end.
  pub sync_at-rank :
      (x : SyncPc) (l r : Frame) (h : Hub)
      → x ≡ h.sync
      → Fed x (h.left_cam_sem + 0) (h.right_cam_sem + 0)
      → sync_rank (sync_at fl x false l r h).sync ≤ sync_rank x - 1
  unfolding sync_at
  sync_at-rank SyncPc.testing l r h e f = omega arith
  sync_at-rank SyncPc.waiting_left l r h e (some_left, some_right) =
      rw (nonzero h.left_cam_sem (omega arith)) (omega arith)
  sync_at-rank SyncPc.waiting_right l r h e some_right =
      rw (nonzero h.right_cam_sem (omega arith)) (omega arith)
  sync_at-rank SyncPc.checking l r h e f = omega arith
  sync_at-rank SyncPc.copying l r h e f = omega arith
  sync_at-rank (SyncPc.comparing x y) l r h e f = elim (Bool-cases (is_pair fl x y)) [
    | inl near ↦ rw near (omega arith)
    | inr far ↦ rw far (omega arith)
  ]
  sync_at-rank (SyncPc.publishing x y) l r h e f = omega arith
  sync_at-rank SyncPc.stopped l r h e f = rw (sym e) (omega arith)

  -- A call of the synchronizer leaves it fed: it waits for the posts of a next round only while both
  -- are still to come from `main`.
  pub sync_at-Fed :
      (x : SyncPc) (b : Bool) (l r : Frame) (h : Hub) (n m : ℕ)
      → x ≡ h.sync
      → (b ≡ true → (0 < n) × (0 < m))
      → Fed x (h.left_cam_sem + n) (h.right_cam_sem + m)
      → let h' = sync_at fl x b l r h in Fed h'.sync (h'.left_cam_sem + n) (h'.right_cam_sem + m)
  unfolding sync_at
  sync_at-Fed SyncPc.testing true l r h n m e owes f =
      let (a, b) = owes refl in (omega (arith, a), omega (arith, b))
  sync_at-Fed SyncPc.testing false l r h n m e owes f = tt
  sync_at-Fed SyncPc.waiting_left b l r h n m e owes (some_left, some_right) =
      elim (Bool-cases (h.left_cam_sem == 0)) [
        | inl dry ↦ rw (dry, sym e) (some_left, some_right)
        | inr more ↦ rw more some_right
      ]
  sync_at-Fed SyncPc.waiting_right b l r h n m e owes some_right =
      elim (Bool-cases (h.right_cam_sem == 0)) [
        | inl dry ↦ rw (dry, sym e) some_right
        | inr more ↦ rw more tt
      ]
  sync_at-Fed SyncPc.checking true l r h n m e owes f = tt
  sync_at-Fed SyncPc.checking false l r h n m e owes f = tt
  sync_at-Fed SyncPc.copying b l r h n m e owes f = tt
  sync_at-Fed (SyncPc.comparing x y) b l r h n m e owes f = elim (Bool-cases (is_pair fl x y)) [
    | inl near ↦ rw near tt
    | inr far ↦ rw far tt
  ]
  sync_at-Fed (SyncPc.publishing x y) b l r h n m e owes f = tt
  sync_at-Fed SyncPc.stopped b l r h n m e owes f = rw (sym e) tt
