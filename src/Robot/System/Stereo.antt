-- ===== src/Robot/System/Stereo.antt =====
-- The pairs of lab6/src/program3.c on their way from the synchronizer to the image writer.
use sys_op.Prelude.{
  ◌≡◌, refl, List, [], ◌∷◌, ◌++◌, map, Bool, true, false, arith, append_assoc, ap, sym, subst, ◌∙◌,
}
use sys_op.Robot.Buffer.{Pop}
use sys_op.Robot.Buffer.Queue.{
  Holds, PopSpec, empty_waits, empty_aborts, takes_first, buffer_pop-PopSpec,
}
use sys_op.Robot.Time.{Frame}
use sys_op.Robot.Threads.{no_frame, SyncPc, WriterPc, Pairs, writer_at, took_left, took_right}

-- A pair that the image writer has in hand, and a left frame that it has alone.
abbrev pub in_hand : WriterPc → List (Frame × Frame)
in_hand (WriterPc.writing l r) = (l, r) ∷ []
in_hand _ = []

abbrev pub held : WriterPc → List Frame
held (WriterPc.popping_right l) = l ∷ []
held _ = []

-- The right frame that the synchronizer has yet to push.
abbrev pub pending : SyncPc → List Frame
pending (SyncPc.pushing_right r) = r ∷ []
pending _ = []

abbrev pub first : Frame × Frame → Frame
first (l, r) = l

abbrev pub second : Frame × Frame → Frame
second (l, r) = r

-- The pairs that are still on their way are, frame by frame, what the two buffers hold. `y` and `w`
-- are where the synchronizer and the image writer stand.
pub record IsAligned (y : SyncPc) (w : WriterPc) (p : Pairs) : Type 0 where
  pub lq : List Frame
  pub rq : List Frame
  pub rest : List (Frame × Frame)
  pub left_holds : Holds no_frame p.sync_left_buf lq
  pub right_holds : Holds no_frame p.sync_right_buf rq
  pub ordered : p.published ≡ p.written ++ (in_hand w ++ rest)
  pub lefts : map first rest ≡ held w ++ lq
  pub rights : map second rest ≡ rq ++ pending y

-- After the image writer has stopped, what it has written is where the published pairs begin.
pub record IsOver (w : WriterPc) (p : Pairs) : Type 0 where
  pub rest : List (Frame × Frame)
  pub stopped : w ≡ WriterPc.stopped
  pub ordered : p.published ≡ p.written ++ rest

pub data InvAt (y : SyncPc) (w : WriterPc) (p : Pairs) : Type 0 where
  lost : p.overflowed ≡ true → InvAt y w p
  over : IsOver w p → InvAt y w p
  aligned : IsAligned y w p → InvAt y w p

abbrev pub Inv : Pairs → Type 0
Inv p = InvAt p.sync p.writer p

took_left-Inv :
    (p : Pairs) (a : IsAligned p.sync WriterPc.popping_left p) {is_running : Bool}
    {o : Pop no_frame}
    → PopSpec no_frame a.lq is_running o
    → p.writer ≡ WriterPc.popping_left
    → Inv (took_left p o)
took_left-Inv p a (empty_waits _) e = aligned (subst (λ w. IsAligned p.sync w p) (sym e) a)
took_left-Inv p a (empty_aborts _) e =
    over (record { rest = a.rest; stopped = refl; ordered = a.ordered })
took_left-Inv p a (takes_first x q is_cons h) e = aligned (record {
  lq = q;
  rq = a.rq;
  rest = a.rest;
  left_holds = h;
  right_holds = a.right_holds;
  ordered = a.ordered;
  lefts = a.lefts ∙ is_cons;
  rights = a.rights;
})

-- The pair that the image writer puts together is the first one on its way.
first_pair :
    (rest : List (Frame × Frame)) (l r : Frame) (lq rq : List Frame)
    → map first rest ≡ l ∷ lq
    → map second rest ≡ r ∷ rq
    → (rest' : List (Frame × Frame)) × (rest ≡ (l, r) ∷ rest')
      × (map first rest' ≡ lq)
      × (map second rest' ≡ rq)
first_pair [] l r lq rq e f = absurd (cc)
first_pair ((l', r') ∷ rest') l r lq rq e f =
    let same_left : l' ≡ l = cc in let same_right : r' ≡ r = cc in (rest', cc, cc, cc)

took_right-Inv :
    (p : Pairs) (l : Frame) (a : IsAligned p.sync (WriterPc.popping_right l) p) {is_running : Bool}
    {o : Pop no_frame}
    → PopSpec no_frame a.rq is_running o
    → p.writer ≡ WriterPc.popping_right l
    → Inv (took_right l p o)
took_right-Inv p l a (empty_waits _) e = aligned (subst (λ w. IsAligned p.sync w p) (sym e) a)
took_right-Inv p l a (empty_aborts _) e =
    over (record { rest = a.rest; stopped = refl; ordered = a.ordered })
took_right-Inv p l a (takes_first x q is_cons h) e =
    let (rest, split, lefts, rights) =
      first_pair a.rest l x a.lq (q ++ pending p.sync) a.lefts (rw is_cons at a.rights) in
    aligned (record {
      lq = a.lq;
      rq = q;
      rest = rest;
      left_holds = a.left_holds;
      right_holds = h;
      ordered = a.ordered ∙ ap (λ t. p.written ++ t) split;
      lefts = lefts;
      rights = rights;
    })

writer_at-overflowed :
    (w : WriterPc) (r : Bool) (p : Pairs) → (writer_at w r p).overflowed ≡ p.overflowed
unfolding writer_at
writer_at-overflowed WriterPc.testing r p = refl
writer_at-overflowed WriterPc.popping_left r p = ground arith
writer_at-overflowed (WriterPc.popping_right l) r p = ground arith
writer_at-overflowed (WriterPc.writing l x) r p = refl
writer_at-overflowed WriterPc.stopped r p = refl

writer_at-aligned :
    (w : WriterPc) (is_running : Bool) (p : Pairs)
    → p.writer ≡ w
    → IsAligned p.sync w p
    → Inv (writer_at w is_running p)
unfolding writer_at
writer_at-aligned WriterPc.testing true p e a = aligned (record {
  lq = a.lq;
  rq = a.rq;
  rest = a.rest;
  left_holds = a.left_holds;
  right_holds = a.right_holds;
  ordered = a.ordered;
  lefts = a.lefts;
  rights = a.rights;
})
writer_at-aligned WriterPc.testing false p e a =
    over (record { rest = a.rest; stopped = refl; ordered = a.ordered })
writer_at-aligned WriterPc.popping_left r p e a =
    took_left-Inv p a (buffer_pop-PopSpec no_frame p.sync_left_buf a.lq r a.left_holds) e
writer_at-aligned (WriterPc.popping_right l) r p e a =
    took_right-Inv p l a (buffer_pop-PopSpec no_frame p.sync_right_buf a.rq r a.right_holds) e
writer_at-aligned (WriterPc.writing l x) r p e a = aligned (record {
  lq = a.lq;
  rq = a.rq;
  rest = a.rest;
  left_holds = a.left_holds;
  right_holds = a.right_holds;
  ordered = a.ordered ∙ sym (append_assoc p.written ((l, x) ∷ []) a.rest);
  lefts = a.lefts;
  rights = a.rights;
})
writer_at-aligned WriterPc.stopped r p e a = aligned (subst (λ w. IsAligned p.sync w p) (sym e) a)

writer_at-over :
    (w : WriterPc) (r : Bool) (p : Pairs) → p.writer ≡ w → IsOver w p → Inv (writer_at w r p)
unfolding writer_at
writer_at-over WriterPc.stopped r p e v = over (subst (λ w. IsOver w p) (sym e) v)
writer_at-over WriterPc.testing r p e v = absurd (cc v.stopped)
writer_at-over WriterPc.popping_left r p e v = absurd (cc v.stopped)
writer_at-over (WriterPc.popping_right l) r p e v = absurd (cc v.stopped)
writer_at-over (WriterPc.writing l x) r p e v = absurd (cc v.stopped)

pub writer_at-Inv : (r : Bool) (p : Pairs) → Inv p → Inv (writer_at p.writer r p)
writer_at-Inv r p (lost o) = lost (writer_at-overflowed p.writer r p ∙ o)
writer_at-Inv r p (over v) = writer_at-over p.writer r p refl v
writer_at-Inv r p (aligned a) = writer_at-aligned p.writer r p refl a
