-- ===== src/Robot/Level1/Stop/Posts.antt =====
-- The posts of `main` of lab6/src/program1.c to the two semaphores, in every run of the threads.
use sys_op.Prelude.{
  ℕ, ◌+◌, ◌<◌, ◌≡◌, refl, subst, List, [], ◌∷◌, Bool, true, false, arith, Bool-cases, inl, inr,
}
use sys_op.Prelude.Double.{Double}
use sys_op.Robot.Level1.Stereo.{posted, post_left, post_right, WriterPc, Hub, writer_at}
use sys_op.Robot.Level1.{
  Robot, MainPc, sleeping, stopping, posting_left, posting_right, joining, exited, main_at, Turn,
  left_camera, right_camera, synchronizer, image_writer, robot_state, logging, main, step, run,
  start, all_ended,
}
use sys_op.Robot.Level1.Stop.{
  Fed, Fed-mono, posted-left, posted-right, IsPost-Fed, writer_at-sync, sync_at-Fed,
}

-- The posts that `main` has still to make.
abbrev pub owed_left : MainPc → ℕ
owed_left sleeping = 1
owed_left stopping = 1
owed_left posting_left = 1
owed_left posting_right = 0
owed_left joining = 0
owed_left exited = 0

abbrev pub owed_right : MainPc → ℕ
owed_right joining = 0
owed_right exited = 0
owed_right _ = 1

-- Before `main` lowers `is_running`.
abbrev pub is_before : MainPc → Bool
is_before sleeping = true
is_before stopping = true
is_before _ = false

before-owed : (m : MainPc) → is_before m ≡ true → (0 < owed_left m) × (0 < owed_right m)
before-owed sleeping e = (omega arith, omega arith)
before-owed stopping e = (omega arith, omega arith)
before-owed posting_left e = absurd (cc)
before-owed posting_right e = absurd (cc)
before-owed joining e = absurd (cc)
before-owed exited e = absurd (cc)

module _ (fl : Double) where
  pub record InvAt (m : MainPc) (s : Robot fl) : Type 0 where
    pub runs : s.is_running ≡ true → is_before m ≡ true
    pub fed : Fed s.hub.sync (s.hub.left_cam_sem + owed_left m) (s.hub.right_cam_sem + owed_right m)

  abbrev pub Inv : Robot fl → Type 0
  Inv s = InvAt s.main s

  main_at-Inv : (m : MainPc) (s : Robot fl) → m ≡ s.main → InvAt m s → Inv (main_at fl m s)
  unfolding main_at
  main_at-Inv sleeping s e h = record { runs = λ r. refl; fed = h.fed }
  main_at-Inv stopping s e h = record { runs = λ r. absurd (cc); fed = h.fed }
  main_at-Inv posting_left s e h = record {
    runs = λ r. absurd (cc (h.runs r));
    fed =
        Fed-mono s.hub.sync (s.hub.left_cam_sem + 1) (s.hub.right_cam_sem + 1)
          (s.hub.left_cam_sem + 1 + 0) (s.hub.right_cam_sem + 1) (omega arith) (omega arith) h.fed;
  }
  main_at-Inv posting_right s e h = record {
    runs = λ r. absurd (cc (h.runs r));
    fed =
        Fed-mono s.hub.sync (s.hub.left_cam_sem + 0) (s.hub.right_cam_sem + 1)
          (s.hub.left_cam_sem + 0) (s.hub.right_cam_sem + 1 + 0) (omega arith) (omega arith) h.fed;
  }
  main_at-Inv joining s e h = elim (Bool-cases (all_ended fl s)) [
    | inl over ↦ rw over (record { runs = λ r. absurd (cc (h.runs r)); fed = h.fed })
    | inr busy ↦ rw busy (subst (λ m. InvAt m s) e h)
  ]
  main_at-Inv exited s e h = subst (λ m. InvAt m s) e h

  writer_at-Fed :
      (w : WriterPc) (b : Bool) (h : Hub) (n m : ℕ)
      → Fed h.sync (h.left_cam_sem + n) (h.right_cam_sem + m)
      → let h' = writer_at w b h in Fed h'.sync (h'.left_cam_sem + n) (h'.right_cam_sem + m)
  writer_at-Fed w b h n m f = let (same, l, r) = writer_at-sync w b h in rw (same, l, r) f

  pub step-Inv : (t : Turn fl) (s : Robot fl) → Inv s → Inv (step fl t s)
  unfolding step
  step-Inv (left_camera now) s h = record {
    runs = h.runs;
    fed =
        IsPost-Fed s.hub (posted s.left.pc post_left s.hub) (owed_left s.main) (owed_right s.main)
          (posted-left s.left.pc s.hub) h.fed;
  }
  step-Inv (right_camera now) s h = record {
    runs = h.runs;
    fed =
        IsPost-Fed s.hub (posted s.right.pc post_right s.hub) (owed_left s.main) (owed_right s.main)
          (posted-right s.right.pc s.hub) h.fed;
  }
  step-Inv synchronizer s h = record {
    runs = h.runs;
    fed =
        sync_at-Fed fl s.hub.sync s.is_running s.left.frame s.right.frame s.hub (owed_left s.main)
          (owed_right s.main) refl (λ r. before-owed s.main (h.runs r)) h.fed;
  }
  step-Inv image_writer s h = record {
    runs = h.runs;
    fed =
        writer_at-Fed s.hub.writer s.is_running s.hub (owed_left s.main) (owed_right s.main) h.fed;
  }
  step-Inv (robot_state now) s h = record { runs = h.runs; fed = h.fed }
  step-Inv logging s h = record { runs = h.runs; fed = h.fed }
  step-Inv main s h = main_at-Inv s.main s refl h

  pub run-Inv : (ts : List (Turn fl)) (s : Robot fl) → Inv s → Inv (run fl ts s)
  unfolding run
  run-Inv [] s h = h
  run-Inv (t ∷ ts) s h = run-Inv ts (step fl t s) (step-Inv t s h)

  pub start-Inv : (opens : Bool) → Inv (start fl opens)
  unfolding start
  start-Inv opens = record { runs = λ r. refl; fed = tt }
