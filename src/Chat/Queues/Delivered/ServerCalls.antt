-- ===== src/Chat/Queues/Delivered/ServerCalls.antt =====
-- The calls of the server of lab4 and the queue of one client.
use sys_op.Prelude.{
  ℕ, zero, suc, ◌+◌, ◌<◌, ◌≤◌, ◌≡◌, ◌≢◌, refl, sym, ap, ◌∙◌, subst, true, false, if◌then◌else◌, ltb,
  List, [], ◌∷◌, Option, none, some, inl, inr, arith, Bool-cases, ℕ_discrete, get_elem?, set, Bool,
  get_elem?-set_self, get_elem?-set_ne,
}
use mathlib.Core.Option.{some-injective}
use sys_op.Prelude.Int.{ℤ}
use sys_op.Chat.Server.{is_id}
use sys_op.Chat.Queues.{
  Queue, max_msg, Loop, receiving, sending, Server, mq_send, send_at, receive_at, server_at,
}

-- One for a text that does not carry the number `k`.
abbrev pub for_others : ℕ → ℤ → ℕ
for_others k id = if is_id k id then 0 else 1

-- How many of the texts do not.
unfoldable pub heard : ℕ → List ℤ → ℕ
heard k [] = 0
heard k (id ∷ ids) = for_others k id + heard k ids

-- Whether the loop has already sent its text to client `k`.
abbrev pub passed : ℕ → Loop → ℕ
passed k receiving = 0
passed k (sending id i) = if ltb k i then for_others k id else 0

before_end :
    {A : Type 0} (xs : List A) (i k : ℕ) (x : A)
    → get_elem? xs i ≡ none
    → get_elem? xs k ≡ some x
    → k < i
before_end [] i k x e h = absurd (ground arith)
before_end (y ∷ xs) zero k x e h = absurd (ground arith)
before_end (y ∷ xs) (suc i) zero x e h = omega arith
before_end (y ∷ xs) (suc i) (suc k) x e h = omega (arith, before_end xs i k x e h)

module _ (k before : ℕ) (reads : Bool) where
  -- The queue of client `k` held `before` messages, none of them from a text in `handled`; since then
  -- the client has taken `gone` messages. `reads` tells whether the client is still there.
  pub record InvAt (loop : Loop) (gone : ℕ) (s : Server) : Type 0 where
    pub held : ℕ
    pub at_k : get_elem? s.queues k ≡ some (record { held = held; is_read = reads })
    pub counted : held + gone ≡ before + heard k s.handled + passed k loop
    pub fits : held ≤ max_msg

  abbrev pub Inv : ℕ → Server → Type 0
  Inv gone s = InvAt s.loop gone s

  passed_next : (i : ℕ) (id : ℤ) → i ≢ k → passed k (sending id (i + 1)) ≡ passed k (sending id i)
  passed_next i id ne =
      let same : ltb k (i + 1) ≡ ltb k i = ground (arith, ne) in
      ap (λ b. if b then for_others k id else 0) same

  passed_after : (i : ℕ) (id : ℤ) → k < i → passed k (sending id i) ≡ for_others k id
  passed_after i id lt =
      let later : ltb k i ≡ true = ground arith in ap (λ b. if b then for_others k id else 0) later

  passed_own : (id : ℤ) → passed k (sending id k) ≡ 0
  passed_own id = ground arith

  -- A call that goes on without a send to client `k`.
  goes_on :
      (gone : ℕ) (id : ℤ) (i : ℕ) (s : Server) (queues : List Queue)
      → get_elem? queues k ≡ get_elem? s.queues k
      → passed k (sending id (i + 1)) ≡ passed k (sending id i)
      → InvAt (sending id i) gone s
      → InvAt (sending id (i + 1)) gone (record s { loop = sending id (i + 1); queues = queues })
  goes_on gone id i s queues same e inv = record {
    held = inv.held;
    at_k = same ∙ inv.at_k;
    counted = omega (arith, inv.counted, e);
    fits = inv.fits;
  }

  abbrev more : Queue → Queue
  more q = record q { held = q.held + 1 }

  -- A send to the queue of client `i`.
  abbrev Sends : ℕ → ℤ → Queue → Server → ℕ → Type 0
  Sends gone id q s i =
      get_elem? s.queues i ≡ some q
      → is_id i id ≡ false
      → InvAt (sending id i) gone s
      → InvAt (sending id (i + 1)) gone
          (record s { queues = set s.queues i (more q); loop = sending id (i + 1) })

  Sends-own :
      (gone : ℕ) (id : ℤ) (q : Queue) (s : Server) → ltb q.held max_msg ≡ true → Sends gone id q s k
  Sends-own gone id q s room here other inv =
      let same : q ≡ record { held = inv.held; is_read = reads } =
        some-injective q _ (sym here ∙ inv.at_k) in
      let one : for_others k id ≡ 1 = rw other refl in
      record {
        held = inv.held + 1;
        at_k = get_elem?-set_self s.queues k (more q) q here ∙ ap (λ r. some (more r)) same;
        counted =
            omega (arith, inv.counted, passed_own id, passed_after (k + 1) id (omega arith), one);
        fits =
            let below : ltb inv.held max_msg ≡ true =
              subst (λ r. ltb r.held max_msg ≡ true) same room in
            ground (arith, below);
      }

  mq_send-Inv :
      (gone : ℕ) (id : ℤ) (i : ℕ) (q : Queue) (s : Server)
      → get_elem? s.queues i ≡ some q
      → sending id i ≡ s.loop
      → is_id i id ≡ false
      → InvAt (sending id i) gone s
      → Inv gone (mq_send id i q s)
  mq_send-Inv gone id i q s e at other inv = elim (Bool-cases (ltb q.held max_msg)) [
    | inr full ↦ rw full (subst (λ l. InvAt l gone s) at inv)
    | inl room ↦ rw room (elim (ℕ_discrete i k) [
      | yes same ↦ subst (Sends gone id q s) (sym same) (Sends-own gone id q s room) e other inv
      | no ne ↦
          goes_on gone id i s (set s.queues i (record q { held = q.held + 1 }))
            (get_elem?-set_ne s.queues i k (record q { held = q.held + 1 }) ne)
            (passed_next i id ne) inv
    ])
  ]

  own_passed :
      (i : ℕ) (id : ℤ) → is_id i id ≡ true → passed k (sending id (i + 1)) ≡ passed k (sending id i)
  own_passed i id own = elim (ℕ_discrete i k) [
    | yes same ↦
        let zero_one : for_others k id ≡ 0 = subst (λ j. for_others j id ≡ 0) same (rw own refl) in
        omega (
          arith,
          passed_after (i + 1) id (omega (arith, same)),
          zero_one,
          subst (λ j. passed k (sending id j) ≡ 0) (sym same) (passed_own id),
        )
    | no ne ↦ passed_next i id ne
  ]

  send_at-Inv :
      (gone : ℕ) (id : ℤ) (i : ℕ) (o : Option Queue) (s : Server)
      → get_elem? s.queues i ≡ o
      → sending id i ≡ s.loop
      → InvAt (sending id i) gone s
      → Inv gone (send_at id i o s)
  unfolding heard
  send_at-Inv gone id i none s e at inv = record {
    held = inv.held;
    at_k = inv.at_k;
    counted = omega (
      arith,
      inv.counted,
      passed_after i id
          (before_end s.queues i k (record { held = inv.held; is_read = reads }) e inv.at_k),
    );
    fits = inv.fits;
  }
  send_at-Inv gone id i (some q) s e at inv = elim (Bool-cases (is_id i id)) [
    | inl own ↦ rw own (goes_on gone id i s s.queues refl (own_passed i id own) inv)
    | inr other ↦ rw other (mq_send-Inv gone id i q s e at other inv)
  ]

  pub server_at-Inv :
      (gone : ℕ) (l : Loop) (s : Server) → l ≡ s.loop → InvAt l gone s → Inv gone (server_at l s)
  server_at-Inv gone receiving s at inv = subst (λ l. InvAt l gone s) at inv
  server_at-Inv gone (sending id i) s at inv =
      send_at-Inv gone id i (get_elem? s.queues i) s refl at inv

  pub receive_at-Inv :
      (gone : ℕ) (id : ℤ) (l : Loop) (s : Server)
      → l ≡ s.loop
      → InvAt l gone s
      → Inv gone (receive_at id l s)
  receive_at-Inv gone id receiving s at inv =
      let none_below : ltb k 0 ≡ false = ground arith in
      record {
        held = inv.held;
        at_k = inv.at_k;
        counted =
            inv.counted
            ∙ ap (λ b. before + heard k s.handled + (if b then for_others k id else 0))
                (sym none_below);
        fits = inv.fits;
      }
  receive_at-Inv gone id (sending other i) s at inv = subst (λ l. InvAt l gone s) at inv
