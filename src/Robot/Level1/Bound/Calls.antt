-- ===== src/Robot/Level1/Bound/Calls.antt =====
-- The posts of each camera of lab6/src/program1.c and the pairs that are published, call by call.
use sys_op.Prelude.{
  ℕ, ◌+◌, ◌≤◌, ◌==◌, ◌≡◌, refl, subst, ap, [], ◌∷◌, Bool, true, false, arith, Bool-cases, inl, inr,
  length, length-append,
}
use sys_op.Prelude.Double.{Double}
use sys_op.Robot.Time.{Frame, Timespec, is_pair}
use sys_op.Robot.Level1.Stereo.{
  CameraPc, shooting, posting, ended, Camera, camera_at, posted, post_left, post_right, SyncPc,
  WriterPc, Hub, writer_at, sync_at,
}

-- What the synchronizer has taken from each semaphore and not published yet.
abbrev pub left_taken : SyncPc → ℕ
left_taken SyncPc.testing = 0
left_taken SyncPc.waiting_left = 0
left_taken SyncPc.stopped = 0
left_taken _ = 1

abbrev pub right_taken : SyncPc → ℕ
right_taken SyncPc.testing = 0
right_taken SyncPc.waiting_left = 0
right_taken SyncPc.waiting_right = 0
right_taken SyncPc.stopped = 0
right_taken _ = 1

-- Past the second test of `is_running`, which no pair is published without.
abbrev pub past_check : SyncPc → ℕ
past_check SyncPc.copying = 1
past_check (SyncPc.comparing left right) = 1
past_check (SyncPc.publishing left right) = 1
past_check _ = 0

-- A frame that the camera has taken and not posted.
abbrev pub unposted : CameraPc → ℕ
unposted posting = 1
unposted shooting = 0
unposted ended = 0

-- The posts and the published pairs of one camera, whose next frame has the number `id`.
pub record Side (is_running : Bool) (sem taken late pairs held id : ℕ) : Type 0 where
  pub on : is_running ≡ true → sem + taken + pairs + held + 1 ≤ id
  pub all : late + pairs + held + 1 ≤ id

pub Side-mono :
    {b : Bool} {sem taken late pairs held id sem' taken' late' pairs' held' id' : ℕ}
    → Side b sem taken late pairs held id
    → (b ≡ true → sem' + taken' + pairs' + held' + id ≤ sem + taken + pairs + held + id')
    → late' + pairs' + held' + id ≤ late + pairs + held + id'
    → Side b sem' taken' late' pairs' held' id'
Side-mono s on all = record {
  on = λ e. omega (arith, s.on e, on e);
  all = omega (arith, s.all, all);
}

module _ (fl : Double) where
  abbrev pub LeftAt : Bool → SyncPc → Hub → Camera → Type 0
  LeftAt b x h c =
      Side b h.left_cam_sem (left_taken x) (past_check x) (length h.published) (unposted c.pc) c.id

  abbrev pub RightAt : Bool → SyncPc → Hub → Camera → Type 0
  RightAt b x h c =
      Side b h.right_cam_sem (right_taken x) (past_check x) (length h.published) (unposted c.pc)
        c.id

  pub left_camera-Side :
      (pc : CameraPc) (b : Bool) (now : Timespec) (c : Camera) (h : Hub)
      → c.pc ≡ pc
      → LeftAt b h.sync h c
      → LeftAt b (posted pc post_left h).sync (posted pc post_left h) (camera_at pc b now c)
  unfolding camera_at
  left_camera-Side shooting true now c h e inv =
      let held = ap unposted e in Side-mono inv (λ _. omega arith) (omega arith)
  left_camera-Side shooting false now c h e inv =
      let held = ap unposted e in Side-mono inv (λ _. omega arith) (omega arith)
  left_camera-Side posting b now c h e inv =
      let held = ap unposted e in Side-mono inv (λ _. omega arith) (omega arith)
  left_camera-Side ended b now c h e inv = inv

  pub right_camera-Side :
      (pc : CameraPc) (b : Bool) (now : Timespec) (c : Camera) (h : Hub)
      → c.pc ≡ pc
      → RightAt b h.sync h c
      → RightAt b (posted pc post_right h).sync (posted pc post_right h) (camera_at pc b now c)
  unfolding camera_at
  right_camera-Side shooting true now c h e inv =
      let held = ap unposted e in Side-mono inv (λ _. omega arith) (omega arith)
  right_camera-Side shooting false now c h e inv =
      let held = ap unposted e in Side-mono inv (λ _. omega arith) (omega arith)
  right_camera-Side posting b now c h e inv =
      let held = ap unposted e in Side-mono inv (λ _. omega arith) (omega arith)
  right_camera-Side ended b now c h e inv = inv

  -- A post to one semaphore is nothing to the other camera's side.
  pub posted-other :
      (pc : CameraPc) (b : Bool) (h : Hub) (l r : Camera)
      → (LeftAt b h.sync h l → LeftAt b (posted pc post_right h).sync (posted pc post_right h) l)
        × (RightAt b h.sync h r → RightAt b (posted pc post_left h).sync (posted pc post_left h) r)
  posted-other shooting b h l r = (λ x. x, λ x. x)
  posted-other posting b h l r = (λ x. x, λ x. x)
  posted-other ended b h l r = (λ x. x, λ x. x)

  pub sync_at-Side :
      (x : SyncPc) (b : Bool) (h : Hub) (lf rf : Frame) (l r : Camera)
      → x ≡ h.sync
      → LeftAt b x h l
      → RightAt b x h r
      → LeftAt b (sync_at fl x b lf rf h).sync (sync_at fl x b lf rf h) l
        × RightAt b (sync_at fl x b lf rf h).sync (sync_at fl x b lf rf h) r
  unfolding sync_at
  sync_at-Side SyncPc.testing true h lf rf l r e il ir =
      (Side-mono il (λ _. omega arith) (omega arith), Side-mono ir (λ _. omega arith) (omega arith))
  sync_at-Side SyncPc.testing false h lf rf l r e il ir =
      (Side-mono il (λ _. omega arith) (omega arith), Side-mono ir (λ _. omega arith) (omega arith))
  sync_at-Side SyncPc.waiting_left b h lf rf l r e il ir = elim (Bool-cases (h.left_cam_sem == 0)) [
    | inl z ↦ rw z (subst (λ y. LeftAt b y h l) e il, subst (λ y. RightAt b y h r) e ir)
    | inr nz ↦
        let some_post : 1 ≤ h.left_cam_sem = ground (arith, nz) in
        rw nz (
          Side-mono il (λ _. omega arith) (omega arith),
          Side-mono ir (λ _. omega arith) (omega arith),
        )
  ]
  sync_at-Side SyncPc.waiting_right b h lf rf l r e il ir =
      elim (Bool-cases (h.right_cam_sem == 0)) [
        | inl z ↦ rw z (subst (λ y. LeftAt b y h l) e il, subst (λ y. RightAt b y h r) e ir)
        | inr nz ↦
            let some_post : 1 ≤ h.right_cam_sem = ground (arith, nz) in
            rw nz (
              Side-mono il (λ _. omega arith) (omega arith),
              Side-mono ir (λ _. omega arith) (omega arith),
            )
      ]
  sync_at-Side SyncPc.checking true h lf rf l r e il ir = (
    record { on = il.on; all = omega (arith, il.on refl) },
    record { on = ir.on; all = omega (arith, ir.on refl) },
  )
  sync_at-Side SyncPc.checking false h lf rf l r e il ir =
      (Side-mono il (λ t. absurd (cc)) (omega arith), Side-mono ir (λ t. absurd (cc)) (omega arith))
  sync_at-Side SyncPc.copying b h lf rf l r e il ir = (il, ir)
  sync_at-Side (SyncPc.comparing a c) b h lf rf l r e il ir = elim (Bool-cases (is_pair fl a c)) [
    | inl pair ↦ rw pair (il, ir)
    | inr apart ↦ rw apart (
      Side-mono il (λ _. omega arith) (omega arith),
      Side-mono ir (λ _. omega arith) (omega arith),
    )
  ]
  sync_at-Side (SyncPc.publishing a c) b h lf rf l r e il ir =
      let longer = length-append h.published ((a, c) ∷ []) in
      (Side-mono il (λ _. omega arith) (omega arith), Side-mono ir (λ _. omega arith) (omega arith))
  sync_at-Side SyncPc.stopped b h lf rf l r e il ir =
      (subst (λ y. LeftAt b y h l) e il, subst (λ y. RightAt b y h r) e ir)

  writer_at-pairs :
      (w : WriterPc) (b : Bool) (h : Hub)
      → ((writer_at w b h).sync ≡ h.sync)
        × ((writer_at w b h).left_cam_sem ≡ h.left_cam_sem)
        × ((writer_at w b h).right_cam_sem ≡ h.right_cam_sem)
        × ((writer_at w b h).published ≡ h.published)
  unfolding writer_at
  writer_at-pairs WriterPc.testing b h = (refl, refl, refl, refl)
  writer_at-pairs WriterPc.taking b h = elim (Bool-cases h.has_new_sync_pair) [
    | inl z ↦ rw z (refl, refl, refl, refl)
    | inr z ↦ rw z (refl, refl, refl, refl)
  ]
  writer_at-pairs (WriterPc.writing left right) b h = (refl, refl, refl, refl)
  writer_at-pairs WriterPc.stopped b h = (refl, refl, refl, refl)

  pub writer_at-Sides :
      (w : WriterPc) (b : Bool) (h : Hub) (l r : Camera)
      → LeftAt b h.sync h l
      → RightAt b h.sync h r
      → LeftAt b (writer_at w b h).sync (writer_at w b h) l
        × RightAt b (writer_at w b h).sync (writer_at w b h) r
  writer_at-Sides w b h l r il ir =
      let (x, ls, rs, ps) = writer_at-pairs w b h in
      (
        Side-mono il (λ _. omega (arith, ap left_taken x, ap length ps))
            (omega (arith, ap past_check x, ap length ps)),
        Side-mono ir (λ _. omega (arith, ap right_taken x, ap length ps))
            (omega (arith, ap past_check x, ap length ps)),
      )
