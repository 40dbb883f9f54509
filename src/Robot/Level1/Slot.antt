-- ===== src/Robot/Level1/Slot.antt =====
-- The slot of one pair between the synchronizer and the image writer of lab6/src/program1.c.
use sys_op.Prelude.{
  ℕ, ◌+◌, ◌-◌, ◌==◌, ◌≡◌, refl, sym, subst, List, [], ◌∷◌, ◌++◌, append-nil, Bool, true, false,
  Bool-cases, inl, inr, All, All-append,
}
use sys_op.Prelude.Double.{Double}
use sys_op.Robot.Time.{Frame, is_pair}
use sys_op.Robot.System.Sync.{InTolerance}
use sys_op.Robot.Level1.Stereo.{
  CameraPc, shooting, posting, ended, posted, post_left, post_right, SyncPc, WriterPc, Hub,
  writer_at, sync_at,
}
use sys_op.Robot.Level1.{
  Robot, MainPc, sleeping, stopping, posting_left, posting_right, joining, exited, main_at, Turn,
  left_camera, right_camera, synchronizer, image_writer, robot_state, logging, main, step, run,
  start, all_ended,
}

-- `xs` is `ys` with some of its elements left out, in the same order.
pub data Kept {A : Type 0} : List A → List A → Type 0 where
  none : Kept [] []
  keep : (xs ys : List A) (x : A) → Kept xs ys → Kept (xs ++ (x ∷ [])) (ys ++ (x ∷ []))
  drop : (xs ys : List A) (y : A) → Kept xs ys → Kept xs (ys ++ (y ∷ []))

-- The pair that the image writer has taken and not yet saved.
abbrev pub in_hand : WriterPc → List (Frame × Frame)
in_hand (WriterPc.writing l r) = (l, r) ∷ []
in_hand WriterPc.testing = []
in_hand WriterPc.taking = []
in_hand WriterPc.stopped = []

abbrev taken : WriterPc → Hub → List (Frame × Frame)
taken w h = h.written ++ in_hand w

module _ (fl : Double) where
  abbrev Tolerance : SyncPc → Type 0
  Tolerance (SyncPc.publishing l r) = InTolerance fl (l, r)
  Tolerance _ = Unit

  record InvAt (w : WriterPc) (x : SyncPc) (h : Hub) : Type 0 where
    kept : Kept (taken w h) h.published
    slot :
        h.has_new_sync_pair ≡ true
        → Kept (taken w h ++ ((h.sync_left_frame, h.sync_right_frame) ∷ [])) h.published
    near : All (InTolerance fl) h.published
    next : Tolerance x

  abbrev Inv : Hub → Type 0
  Inv h = InvAt h.writer h.sync h

  writer_at-Inv :
      (w : WriterPc) (b : Bool) (h : Hub) → w ≡ h.writer → InvAt w h.sync h → Inv (writer_at w b h)
  unfolding writer_at
  writer_at-Inv WriterPc.testing true h e inv = record {
    kept = inv.kept;
    slot = inv.slot;
    near = inv.near;
    next = inv.next;
  }
  writer_at-Inv WriterPc.testing false h e inv = record {
    kept = inv.kept;
    slot = inv.slot;
    near = inv.near;
    next = inv.next;
  }
  writer_at-Inv WriterPc.taking b h e inv = elim (Bool-cases h.has_new_sync_pair) [
    | inl full ↦ rw full (record {
      kept =
          subst (λ l. Kept (l ++ ((h.sync_left_frame, h.sync_right_frame) ∷ [])) h.published)
            (append-nil h.written) (inv.slot full);
      slot = λ again. absurd (cc);
      near = inv.near;
      next = inv.next;
    })
    | inr empty ↦
        rw empty (record {
          kept = inv.kept;
          slot = λ again. absurd (cc);
          near = inv.near;
          next = inv.next;
        })
  ]
  writer_at-Inv (WriterPc.writing l r) b h e inv =
      let saved = h.written ++ ((l, r) ∷ []) in
      record {
        kept = subst (λ w. Kept w h.published) (sym (append-nil saved)) inv.kept;
        slot = λ full.
            subst (λ w. Kept (w ++ ((h.sync_left_frame, h.sync_right_frame) ∷ [])) h.published)
              (sym (append-nil saved)) (inv.slot full);
        near = inv.near;
        next = inv.next;
      }
  writer_at-Inv WriterPc.stopped b h e inv = subst (λ w. InvAt w h.sync h) e inv

  -- A call that only moves the synchronizer, to where it has nothing new to publish.
  moved :
      (w : WriterPc) (x y : SyncPc) (n m : ℕ) (h : Hub)
      → Tolerance y
      → InvAt w x h
      → InvAt w y (record h { sync = y; left_cam_sem = n; right_cam_sem = m })
  moved w x y n m h t inv = record { kept = inv.kept; slot = inv.slot; near = inv.near; next = t }

  sync_at-Inv :
      (x : SyncPc) (b : Bool) (l r : Frame) (h : Hub)
      → x ≡ h.sync
      → InvAt h.writer x h
      → Inv (sync_at fl x b l r h)
  unfolding sync_at
  sync_at-Inv SyncPc.testing true l r h e inv =
      moved h.writer SyncPc.testing SyncPc.waiting_left h.left_cam_sem h.right_cam_sem h tt inv
  sync_at-Inv SyncPc.testing false l r h e inv =
      moved h.writer SyncPc.testing SyncPc.stopped h.left_cam_sem h.right_cam_sem h tt inv
  sync_at-Inv SyncPc.waiting_left b l r h e inv = elim (Bool-cases (h.left_cam_sem == 0)) [
    | inl dry ↦ rw dry (subst (λ x. InvAt h.writer x h) e inv)
    | inr more ↦ rw more (
        moved h.writer SyncPc.waiting_left SyncPc.waiting_right (h.left_cam_sem - 1) h.right_cam_sem
          h tt inv)
  ]
  sync_at-Inv SyncPc.waiting_right b l r h e inv = elim (Bool-cases (h.right_cam_sem == 0)) [
    | inl dry ↦ rw dry (subst (λ x. InvAt h.writer x h) e inv)
    | inr more ↦ rw more (
        moved h.writer SyncPc.waiting_right SyncPc.checking h.left_cam_sem (h.right_cam_sem - 1) h
          tt inv)
  ]
  sync_at-Inv SyncPc.checking true l r h e inv =
      moved h.writer SyncPc.checking SyncPc.copying h.left_cam_sem h.right_cam_sem h tt inv
  sync_at-Inv SyncPc.checking false l r h e inv =
      moved h.writer SyncPc.checking SyncPc.stopped h.left_cam_sem h.right_cam_sem h tt inv
  sync_at-Inv SyncPc.copying b l r h e inv =
      moved h.writer SyncPc.copying (SyncPc.comparing l r) h.left_cam_sem h.right_cam_sem h tt inv
  sync_at-Inv (SyncPc.comparing x y) b l r h e inv = elim (Bool-cases (is_pair fl x y)) [
    | inl near ↦ rw near (
        moved h.writer (SyncPc.comparing x y) (SyncPc.publishing x y) h.left_cam_sem h.right_cam_sem
          h near inv)
    | inr far ↦ rw far (
        moved h.writer (SyncPc.comparing x y) SyncPc.testing h.left_cam_sem h.right_cam_sem h tt
          inv)
  ]
  sync_at-Inv (SyncPc.publishing x y) b l r h e inv = record {
    kept = drop (taken h.writer h) h.published (x, y) inv.kept;
    slot = λ full. keep (taken h.writer h) h.published (x, y) inv.kept;
    near = All-append (InTolerance fl) h.published ((x, y) ∷ []) inv.near (inv.next, tt);
    next = tt;
  }
  sync_at-Inv SyncPc.stopped b l r h e inv = subst (λ x. InvAt h.writer x h) e inv

  post-Inv : (h : Hub) (n m : ℕ) → Inv h → Inv (record h { left_cam_sem = n; right_cam_sem = m })
  post-Inv h n m inv = record { kept = inv.kept; slot = inv.slot; near = inv.near; next = inv.next }

  posted-Inv :
      (pc : CameraPc) (h : Hub) → Inv h → Inv (posted pc post_left h) × Inv (posted pc post_right h)
  posted-Inv shooting h inv = (inv, inv)
  posted-Inv ended h inv = (inv, inv)
  posted-Inv posting h inv = (
    post-Inv h (h.left_cam_sem + 1) h.right_cam_sem inv,
    post-Inv h h.left_cam_sem (h.right_cam_sem + 1) inv,
  )

  main_at-Inv : (m : MainPc) (s : Robot fl) → Inv s.hub → Inv (main_at fl m s).hub
  unfolding main_at
  main_at-Inv sleeping s inv = inv
  main_at-Inv stopping s inv = inv
  main_at-Inv posting_left s inv = post-Inv s.hub (s.hub.left_cam_sem + 1) s.hub.right_cam_sem inv
  main_at-Inv posting_right s inv = post-Inv s.hub s.hub.left_cam_sem (s.hub.right_cam_sem + 1) inv
  main_at-Inv joining s inv = elim (Bool-cases (all_ended fl s)) [
    | inl over ↦ rw over inv
    | inr busy ↦ rw busy inv
  ]
  main_at-Inv exited s inv = inv

  step-Inv : (t : Turn fl) (s : Robot fl) → Inv s.hub → Inv (step fl t s).hub
  unfolding step
  step-Inv (left_camera now) s inv = (posted-Inv s.left.pc s.hub inv).0
  step-Inv (right_camera now) s inv = (posted-Inv s.right.pc s.hub inv).1
  step-Inv synchronizer s inv =
      sync_at-Inv s.hub.sync s.is_running s.left.frame s.right.frame s.hub refl inv
  step-Inv image_writer s inv = writer_at-Inv s.hub.writer s.is_running s.hub refl inv
  step-Inv (robot_state now) s inv = inv
  step-Inv logging s inv = inv
  step-Inv main s inv = main_at-Inv s.main s inv

  run-Inv : (ts : List (Turn fl)) (s : Robot fl) → Inv s.hub → Inv (run fl ts s).hub
  unfolding run
  run-Inv [] s inv = inv
  run-Inv (t ∷ ts) s inv = run-Inv ts (step fl t s) (step-Inv t s inv)

  start-Inv : (opens : Bool) → Inv (start fl opens).hub
  unfolding start
  start-Inv opens = record { kept = none; slot = λ full. absurd (cc); near = tt; next = tt }

  -- In every run of level 1 each pair that the synchronizer publishes is within the tolerance of
  -- 20 ms, and the pairs that the image writer saves are pairs it has published, each at most once
  -- and in their order: some may be left out, but no left frame is saved with another right one.
  pub saved_pairs :
      (opens : Bool) (ts : List (Turn fl))
      → let h = (run fl ts (start fl opens)).hub in
        Kept (h.written ++ in_hand h.writer) h.published × All (InTolerance fl) h.published
  saved_pairs opens ts =
      let inv = run-Inv ts (start fl opens) (start-Inv opens) in (inv.kept, inv.near)
