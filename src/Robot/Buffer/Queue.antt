-- ===== src/Robot/Buffer/Queue.antt =====
-- The buffer of lab6 is a queue of at most 64 frames that forgets its oldest frame when it is full.
use sys_op.Prelude.{
  ℕ, suc, ◌+◌, ◌-◌, ◌%◌, ◌≤◌, ◌<◌, ◌≡◌, refl, ◌==◌, List, [], ◌∷◌, ◌++◌, Bool, true, false, length,
  length-append, get_or, arith, drop, ap, sym, ◌∙◌, subst, dec_lt, append-nil, append_assoc,
  drop-append, drop-drop, length-drop,
}
use sys_op.Prelude.Ring.{IsRing, IsRing-push, IsRing-pop}
use sys_op.Robot.Buffer.{
  FrameBuffer, buffer_size, buffer_init, buffer_push, Pop, waits, aborts, pops, buffer_pop,
}

module _ {F : Type 0} (d : F) where
  pub record Holds (b : FrameBuffer d) (q : List F) : Type 0 where
    pub ring : IsRing d buffer_size b.buffer b.tail b.head q
    pub counted : b.count ≡ length q
    pub fits : length q ≤ buffer_size

  -- The queue of the last `cap` frames.
  abbrev pub push_latest : ℕ → List F → F → List F
  push_latest cap q x = drop (length q + 1 - cap) (q ++ (x ∷ []))

  pub data PopSpec (q : List F) : Bool → Pop d → Type 0 where
    empty_waits : q ≡ [] → PopSpec q true waits
    empty_aborts : q ≡ [] → PopSpec q false aborts
    takes_first :
        {r : Bool} (x : F) (rest : List F) {b : FrameBuffer d}
        → q ≡ x ∷ rest
        → Holds b rest
        → PopSpec q r (pops x b)

  -- `buffer_init` leaves an empty queue in an array of 64 slots.
  pub buffer_init-Holds :
      (b : FrameBuffer d) → length b.buffer ≡ buffer_size → Holds (buffer_init d b) []
  unfolding buffer_init
  buffer_init-Holds b h = record {
    ring = record { room = h; rd_in = omega arith; wr_at = refl; items = refl };
    counted = refl;
    fits = omega arith;
  }

  push_with_room :
      (b : FrameBuffer d) (q : List F) (x : F)
      → length q < buffer_size
      → Holds b q
      → Holds (buffer_push d b x) (q ++ (x ∷ []))
  unfolding buffer_push
  push_with_room b q x lt h =
      let room : (b.count == buffer_size) ≡ false = ground (arith, h.counted) in
      rw room (record {
        ring = IsRing-push d buffer_size b.buffer b.tail b.head q x lt h.ring;
        counted = omega (arith, h.counted, length-append q (x ∷ []));
        fits = omega (arith, length-append q (x ∷ []));
      })

  push_when_full :
      (b : FrameBuffer d) (y : F) (q : List F) (x : F)
      → suc (length q) ≡ buffer_size
      → Holds b (y ∷ q)
      → Holds (buffer_push d b x) (q ++ (x ∷ []))
  unfolding buffer_push
  push_when_full b y q x full h =
      let no_room : (b.count == buffer_size) ≡ true = ground (arith, h.counted) in
      let (_, rest) = IsRing-pop d buffer_size b.buffer b.tail b.head y q h.ring in
      rw no_room (record {
        ring = IsRing-push d buffer_size b.buffer _ b.head q x (omega arith) rest;
        counted = omega (arith, h.counted, length-append q (x ∷ []));
        fits = omega (arith, length-append q (x ∷ []));
      })

  pub push-latest_room :
      (q : List F) (x : F) → length q < buffer_size → push_latest buffer_size q x ≡ q ++ (x ∷ [])
  push-latest_room q x lt =
      let none_over : length q + 1 - buffer_size ≡ 0 = omega arith in rw none_over

  -- `buffer_push` appends the frame to the queue, and drops the oldest frame if and only if 64 frames
  -- were there.
  pub buffer_push-Holds :
      (b : FrameBuffer d) (q : List F) (x : F)
      → Holds b q
      → Holds (buffer_push d b x) (push_latest buffer_size q x)
  buffer_push-Holds b [] x h = push_with_room b [] x (omega arith) h
  buffer_push-Holds b (y ∷ q) x h = elim (dec_lt (length (y ∷ q)) buffer_size) [
    | yes lt ↦ rw (push-latest_room (y ∷ q) x lt) (push_with_room b (y ∷ q) x lt h)
    | no full ↦
        let one_over : length (y ∷ q) + 1 - buffer_size ≡ 1 = omega (arith, h.fits) in
        rw one_over (push_when_full b y q x (omega (arith, h.fits)) h)
  ]

  -- The result of a `buffer_pop` that finds a frame.
  taking :
      (b : FrameBuffer d) (x : F) (q : List F) (r : Bool)
      → Holds b (x ∷ q)
      → PopSpec (x ∷ q) r (
          pops
            (get_or b.buffer b.tail d)
            (record b { tail = (b.tail + 1) % buffer_size; count = b.count - 1 }))
  taking b x q r h =
      let (first, rest) = IsRing-pop d buffer_size b.buffer b.tail b.head x q h.ring in
      rw first (
        takes_first x q refl (record {
          ring = rest;
          counted = omega (arith, h.counted);
          fits = omega (arith, h.fits);
        }))

  pop_some :
      (b : FrameBuffer d) (x : F) (q : List F) (r : Bool)
      → Holds b (x ∷ q)
      → PopSpec (x ∷ q) r (buffer_pop d b r)
  unfolding buffer_pop
  pop_some b x q true h =
      let some_left : (b.count == 0) ≡ false = ground (arith, h.counted) in
      rw some_left (taking b x q true h)
  pop_some b x q false h =
      let some_left : (b.count == 0) ≡ false = ground (arith, h.counted) in
      rw some_left (taking b x q false h)

  -- `buffer_pop` on an empty queue waits while the system runs, and gives up once it is shutting
  -- down; otherwise it takes the oldest frame, also during the shutdown.
  pub buffer_pop-PopSpec :
      (b : FrameBuffer d) (q : List F) (r : Bool) → Holds b q → PopSpec q r (buffer_pop d b r)
  unfolding buffer_pop
  buffer_pop-PopSpec b [] true h =
      let none_left : (b.count == 0) ≡ true = ground (arith, h.counted) in
      rw none_left (empty_waits refl)
  buffer_pop-PopSpec b [] false h =
      let none_left : (b.count == 0) ≡ true = ground (arith, h.counted) in
      rw none_left (empty_aborts refl)
  buffer_pop-PopSpec b (x ∷ q) r h = pop_some b x q r h

  -- The buffer after a series of pushes.
  pub push_all : FrameBuffer d → List F → FrameBuffer d
  push_all b [] = b
  push_all b (x ∷ xs) = push_all (buffer_push d b x) xs

  push-latest_drop :
      (n : ℕ) (all : List F) (x : F)
      → n ≡ length all - buffer_size
      → push_latest buffer_size (drop n all) x
        ≡ drop (length (all ++ (x ∷ [])) - buffer_size) (all ++ (x ∷ []))
  push-latest_drop n all x e =
      ap (λ l. drop over l) (sym (drop-append n all (x ∷ []) (omega arith)))
      ∙ drop-drop over n (all ++ (x ∷ []))
      ∙ ap (λ k. drop k (all ++ (x ∷ [])))
          (omega (arith, length-drop n all, length-append all (x ∷ [])))
    where
      over : ℕ
      over = length (drop n all) + 1 - buffer_size

  push_all-latest :
      (b : FrameBuffer d) (before xs : List F)
      → Holds b (drop (length before - buffer_size) before)
      → Holds (push_all b xs) (drop (length (before ++ xs) - buffer_size) (before ++ xs))
  unfolding push_all
  push_all-latest b before [] h = rw append-nil h
  push_all-latest b before (x ∷ xs) h = rw (← append_assoc before (x ∷ []) xs) (
      push_all-latest (buffer_push d b x) (before ++ (x ∷ [])) xs (
        rw (← push-latest_drop (length before - buffer_size) before x refl)
          (buffer_push-Holds b _ x h)))

  -- After any number of pushes into a fresh buffer it holds the latest 64 of the frames, or all of
  -- them if they are fewer, oldest first.
  pub push_all_init :
      (b : FrameBuffer d) (xs : List F)
      → length b.buffer ≡ buffer_size
      → Holds (push_all (buffer_init d b) xs) (drop (length xs - buffer_size) xs)
  push_all_init b xs h = push_all-latest (buffer_init d b) [] xs (buffer_init-Holds b h)

  -- What a `buffer_pop` gives that finds a frame.
  pub buffer_pop-cons :
      (b : FrameBuffer d) (x : F) (q : List F) (r : Bool)
      → Holds b (x ∷ q)
      → (b' : FrameBuffer d) × (buffer_pop d b r ≡ pops x b') × Holds b' q
  buffer_pop-cons b x q r h = invert (buffer_pop-PopSpec b (x ∷ q) r h)
    where
      invert :
          {running : Bool} {o : Pop d}
          → PopSpec (x ∷ q) running o
          → (b' : FrameBuffer d) × (o ≡ pops x b') × Holds b' q
      invert (empty_waits e) = absurd (cc)
      invert (empty_aborts e) = absurd (cc)
      invert (takes_first y rest {b = b'} e h') =
          let same : y ≡ x = cc in
          let same_rest : rest ≡ q = cc in
          (b', ap (λ z. pops z b') same, subst (Holds b') same_rest h')
