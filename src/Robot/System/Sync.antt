-- ===== src/Robot/System/Sync.antt =====
-- The synchronizer of lab6/src/program3.c keeps the pairs aligned, and publishes only pairs within the
-- tolerance.
use sys_op.Prelude.{
  ◌≡◌, refl, List, [], ◌∷◌, ◌++◌, Bool, true, false, ◌||◌, ◌==◌, if◌then◌else◌, arith, length, All,
  All-append, append_assoc, append-nil, ap, sym, ◌∙◌, dec_lt, subst, Bool-cases, inl, inr, ◌⊎◌,
}
use mathlib.Core.List.{map-append}
use sys_op.Robot.Buffer.{buffer_size, buffer_push, Pop, waits, aborts, pops}
use sys_op.Robot.Buffer.Queue.{Holds, buffer_push-Holds, push-latest_room}
use sys_op.Robot.Time.{Frame, is_pair}
use sys_op.Prelude.Double.{Double}
use sys_op.Robot.Threads.{no_frame, Frames, SyncPc, Pairs, push_left, push_right, at}
use sys_op.Robot.System.{Robot, got_left, got_right, sync_at}
use sys_op.Robot.System.Stereo.{
  held, pending, first, second, IsAligned, InvAt, lost, over, aligned, Inv,
}

or_true : (b : Bool) → (b || true) ≡ true
or_true true = refl
or_true false = refl

at-Inv : (p : Pairs) (y y' : SyncPc) → pending y ≡ pending y' → InvAt y p.writer p → Inv (at y' p)
at-Inv p y y' e (lost o) = lost o
at-Inv p y y' e (over v) = over (record { rest = v.rest; stopped = v.stopped; ordered = v.ordered })
at-Inv p y y' e (aligned a) = aligned (record {
  lq = a.lq;
  rq = a.rq;
  rest = a.rest;
  left_holds = a.left_holds;
  right_holds = a.right_holds;
  ordered = a.ordered;
  lefts = a.lefts;
  rights = a.rights ∙ ap (λ t. a.rq ++ t) e;
})

-- A push finds room, or the overflow is noted.
push_room :
    (buf : Frames) (q : List Frame) (f : Frame) (before : Bool)
    → Holds no_frame buf q
    → ((before || (buf.count == buffer_size)) ≡ true)
      ⊎ Holds no_frame (buffer_push no_frame buf f) (q ++ (f ∷ []))
push_room buf q f before h = elim (dec_lt (length q) buffer_size) [
  | yes lt ↦ inr (rw (← push-latest_room no_frame q f lt) (buffer_push-Holds no_frame buf q f h))
  | no full ↦
      let counted : (buf.count == buffer_size) ≡ true = ground (arith, h.counted, h.fits) in
      inl (rw counted (or_true before))
]

-- The pairs when the left half of a pair is pushed.
abbrev publish : Frame → Frame → Pairs → Pairs
publish l r p =
    push_left l
      (record (at (SyncPc.pushing_right r) p) { published = p.published ++ ((l, r) ∷ []) })

publish_aligned :
    (p : Pairs) (l r : Frame) (a : IsAligned (SyncPc.pushing_left l r) p.writer p)
    → Holds no_frame (buffer_push no_frame p.sync_left_buf l) (a.lq ++ (l ∷ []))
    → Inv (publish l r p)
publish_aligned p l r a h = aligned (record {
  lq = a.lq ++ (l ∷ []);
  rq = a.rq;
  rest = a.rest ++ ((l, r) ∷ []);
  left_holds = h;
  right_holds = a.right_holds;
  ordered = ap (λ t. t ++ ((l, r) ∷ [])) a.ordered ∙ simp append_assoc;
  lefts =
      map-append first a.rest ((l, r) ∷ [])
      ∙ ap (λ t. t ++ (l ∷ [])) a.lefts
      ∙ append_assoc (held p.writer) a.lq (l ∷ []);
  rights =
      map-append second a.rest ((l, r) ∷ []) ∙ ap (λ t. t ++ (r ∷ [])) (a.rights ∙ append-nil a.rq);
})

publish-Inv :
    (p : Pairs) (l r : Frame) → InvAt (SyncPc.pushing_left l r) p.writer p → Inv (publish l r p)
publish-Inv p l r (lost o) = lost (rw o)
publish-Inv p l r (over v) = over (record {
  rest = v.rest ++ ((l, r) ∷ []);
  stopped = v.stopped;
  ordered = ap (λ t. t ++ ((l, r) ∷ [])) v.ordered ∙ append_assoc p.written v.rest ((l, r) ∷ []);
})
publish-Inv p l r (aligned a) = elim (push_room p.sync_left_buf a.lq l p.overflowed a.left_holds) [
  | inl o ↦ lost o
  | inr h ↦ publish_aligned p l r a h
]

push_right-Inv :
    (p : Pairs) (r : Frame)
    → InvAt (SyncPc.pushing_right r) p.writer p
    → Inv (push_right r (at SyncPc.testing p))
push_right-Inv p r (lost o) = lost (rw o)
push_right-Inv p r (over v) =
    over (record { rest = v.rest; stopped = v.stopped; ordered = v.ordered })
push_right-Inv p r (aligned a) =
    elim (push_room p.sync_right_buf a.rq r p.overflowed a.right_holds) [
      | inl o ↦ lost o
      | inr h ↦ aligned (record {
        lq = a.lq;
        rq = a.rq ++ (r ∷ []);
        rest = a.rest;
        left_holds = a.left_holds;
        right_holds = h;
        ordered = a.ordered;
        lefts = a.lefts;
        rights = a.rights ∙ sym (append-nil (a.rq ++ (r ∷ [])));
      })
    ]

module _ (fl : Double) where
  got_left-Inv :
      (s : Robot fl) (o : Pop no_frame)
      → s.pairs.sync ≡ SyncPc.popping_left
      → InvAt SyncPc.popping_left s.pairs.writer s.pairs
      → Inv (got_left fl s o).pairs
  got_left-Inv s waits e h = subst (λ y. InvAt y s.pairs.writer s.pairs) (sym e) h
  got_left-Inv s aborts e h = at-Inv s.pairs SyncPc.popping_left SyncPc.stopped refl h
  got_left-Inv s (pops f buf) e h =
      at-Inv s.pairs SyncPc.popping_left (SyncPc.popping_right f) refl h

  got_right-Inv :
      (l : Frame) (s : Robot fl) (o : Pop no_frame)
      → s.pairs.sync ≡ SyncPc.popping_right l
      → InvAt (SyncPc.popping_right l) s.pairs.writer s.pairs
      → Inv (got_right fl l s o).pairs
  got_right-Inv l s waits e h = subst (λ y. InvAt y s.pairs.writer s.pairs) (sym e) h
  got_right-Inv l s aborts e h = at-Inv s.pairs (SyncPc.popping_right l) SyncPc.stopped refl h
  got_right-Inv l s (pops f buf) e h =
      at-Inv s.pairs (SyncPc.popping_right l) (SyncPc.comparing l f) refl h

  pub sync_at-Inv :
      (y : SyncPc) (s : Robot fl)
      → s.pairs.sync ≡ y
      → InvAt y s.pairs.writer s.pairs
      → Inv (sync_at fl y s).pairs
  unfolding sync_at
  sync_at-Inv SyncPc.testing s e h = running s.is_running
    where
      running : (b : Bool) → Inv (at (if b then SyncPc.popping_left else SyncPc.stopped) s.pairs)
      running true = at-Inv s.pairs SyncPc.testing SyncPc.popping_left refl h
      running false = at-Inv s.pairs SyncPc.testing SyncPc.stopped refl h
  sync_at-Inv SyncPc.popping_left s e h = got_left-Inv s _ e h
  sync_at-Inv (SyncPc.popping_right l) s e h = got_right-Inv l s _ e h
  sync_at-Inv (SyncPc.comparing l r) s e h = comparing (is_pair fl l r)
    where
      comparing :
          (b : Bool) → Inv (at (if b then SyncPc.pushing_left l r else SyncPc.testing) s.pairs)
      comparing true = at-Inv s.pairs (SyncPc.comparing l r) (SyncPc.pushing_left l r) refl h
      comparing false = at-Inv s.pairs (SyncPc.comparing l r) SyncPc.testing refl h
  sync_at-Inv (SyncPc.pushing_left l r) s e h = publish-Inv s.pairs l r h
  sync_at-Inv (SyncPc.pushing_right r) s e h = push_right-Inv s.pairs r h
  sync_at-Inv SyncPc.stopped s e h = subst (λ y. InvAt y s.pairs.writer s.pairs) (sym e) h

  -- The pairs that are published, and the one about to be, are within the tolerance.
  abbrev pub InTolerance : Frame × Frame → Type 0
  InTolerance (l, r) = is_pair fl l r ≡ true

  abbrev pub IsReady : SyncPc → Type 0
  IsReady (SyncPc.pushing_left l r) = InTolerance (l, r)
  IsReady _ = Unit

  abbrev pub Tolerance : SyncPc → Pairs → Type 0
  Tolerance y p = All InTolerance p.published × IsReady y

  got_left-Tolerance :
      (s : Robot fl) (o : Pop no_frame)
      → Tolerance s.pairs.sync s.pairs
      → Tolerance (got_left fl s o).pairs.sync (got_left fl s o).pairs
  got_left-Tolerance s waits h = h
  got_left-Tolerance s aborts h = (h.0, tt)
  got_left-Tolerance s (pops f buf) h = (h.0, tt)

  got_right-Tolerance :
      (l : Frame) (s : Robot fl) (o : Pop no_frame)
      → Tolerance s.pairs.sync s.pairs
      → Tolerance (got_right fl l s o).pairs.sync (got_right fl l s o).pairs
  got_right-Tolerance l s waits h = h
  got_right-Tolerance l s aborts h = (h.0, tt)
  got_right-Tolerance l s (pops f buf) h = (h.0, tt)

  pub sync_at-Tolerance :
      (y : SyncPc) (s : Robot fl)
      → s.pairs.sync ≡ y
      → Tolerance s.pairs.sync s.pairs
      → Tolerance (sync_at fl y s).pairs.sync (sync_at fl y s).pairs
  unfolding sync_at
  sync_at-Tolerance SyncPc.testing s e h = (h.0, running s.is_running)
    where
      running : (b : Bool) → IsReady (if b then SyncPc.popping_left else SyncPc.stopped)
      running true = tt
      running false = tt
  sync_at-Tolerance SyncPc.popping_left s e h = got_left-Tolerance s _ h
  sync_at-Tolerance (SyncPc.popping_right l) s e h = got_right-Tolerance l s _ h
  sync_at-Tolerance (SyncPc.comparing l r) s e h = (h.0, comparing (Bool-cases (is_pair fl l r)))
    where
      comparing :
          (is_pair fl l r ≡ true) ⊎ (is_pair fl l r ≡ false)
          → IsReady (if is_pair fl l r then SyncPc.pushing_left l r else SyncPc.testing)
      comparing (inl e) =
          subst (λ b. IsReady (if b then SyncPc.pushing_left l r else SyncPc.testing)) (sym e) e
      comparing (inr e) =
          subst (λ b. IsReady (if b then SyncPc.pushing_left l r else SyncPc.testing)) (sym e) tt
  sync_at-Tolerance (SyncPc.pushing_left l r) s e h =
      (All-append InTolerance s.pairs.published ((l, r) ∷ []) h.0 (subst IsReady e h.1, tt), tt)
  sync_at-Tolerance (SyncPc.pushing_right r) s e h = (h.0, tt)
  sync_at-Tolerance SyncPc.stopped s e h = h
