-- ===== src/Chat/Handshake.antt =====
-- A client and the server of lab4 together: the number that the client is given, and who reads its
-- lines.
use sys_op.Prelude.{
  ℕ, ◌+◌, ◌<◌, ◌≡◌, refl, sym, ap, ◌∙◌, Bool, true, false, not, ◌||◌, if_elim, ◌&&◌, if◌then◌else◌,
  ltb, ◌==◌, List, [], ◌∷◌, ◌++◌, Option, none, some, length, append-nil, append_assoc, map, arith,
}
use sys_op.Prelude.Int.{pos}
use sys_op.Chat.Server.{
  Text, MessageType, msg_init, msg_id_assign, msg_text, ChatMessage, max_clients, Server, start,
  assigned, handle, run,
}
use sys_op.Chat.Clients.{
  after, after_kind, others, clients, run-from, run-Registers, text-others, init_answered,
}
use sys_op.Chat.Client.{
  Calls, Reply, silence, failed, message, State, exited, waiting, chatting, cleanup, connect,
  init_message, fork_and_chat, on_reply,
}

-- Nobody is left out whose number comes later.
others-past : (k i : ℕ) (names : List Text) → k < i → others (pos k) i names ≡ names
unfolding others
others-past k i [] lt = refl
others-past k i (n ∷ names) lt =
    let other : (i == k) ≡ false = ground arith in
    rw other (ap (λ l. n ∷ l) (others-past k (i + 1) names (omega arith)))

-- The client with the number of a place in the table is left out, and no one else.
others-place :
    (before : List Text) (name : Text) (behind : List Text) (i k : ℕ)
    → k ≡ i + length before
    → others (pos k) i (before ++ (name ∷ behind)) ≡ before ++ behind
unfolding others
others-place [] name behind i k e =
    let same : (i == k) ≡ true = ground arith in
    rw same (others-past k (i + 1) behind (omega arith))
others-place (b ∷ before) name behind i k e =
    let other : (i == k) ≡ false = ground arith in
    rw other (ap (λ l. b ∷ l) (others-place before name behind (i + 1) k (omega arith)))

-- Clients only join at the end.
after-behind :
    (e : Option (Bool × ChatMessage)) (names : List Text)
    → (more : List Text) × (after e names ≡ names ++ more)
unfolding after
after-behind none names = ([], sym (append-nil _))
after-behind (some (open_ok, msg)) names = by_kind msg.kind
  where
    by_room :
        (b : Bool)
        → (more : List Text) × ((if b then names ++ (msg.queue_name ∷ []) else names)
            ≡ names ++ more)
    by_room true = (msg.queue_name ∷ [], refl)
    by_room false = ([], sym (append-nil _))

    by_kind :
        (k : MessageType)
        → (more : List Text) × (after_kind k open_ok msg.queue_name names ≡ names ++ more)
    by_kind msg_init = by_room (ltb (length names) max_clients && open_ok)
    by_kind msg_id_assign = ([], sym (append-nil _))
    by_kind msg_text = ([], sym (append-nil _))

clients-behind :
    (es : List (Option (Bool × ChatMessage))) (names : List Text)
    → (more : List Text) × (clients es names ≡ names ++ more)
unfolding clients
clients-behind [] names = ([], sym (append-nil _))
clients-behind (e ∷ es) names =
    let (m₁, e₁) = after-behind e names in
    let (m₂, e₂) = clients-behind es (after e names) in
    (m₁ ++ m₂, e₂ ∙ (ap (λ l. l ++ m₂) e₁ ∙ append_assoc names m₁ m₂))

-- A line of a client that was given the number `id`.
abbrev pub line_of : ℕ → Text → ChatMessage
line_of id line = record { kind = msg_text; client_id = pos id; queue_name = []; text = line }

module _ (before later : List (Option (Bool × ChatMessage))) (name : Text) where
  -- The server when the client has joined and more messages have come since.
  abbrev pub server : Server
  server = run later (handle (some (true, init_message name)) (run before start))

  -- When fewer than ten clients are registered and a client joins whose queue opens, the server
  -- answers it with their number. After any messages the clients are those that were there, the new
  -- one, and the ones that came behind it, in this order; and a line that the client sends with its
  -- number then goes to those before it and to those behind it, once each, and to no one else.
  pub joined_client :
      (id : ℕ) (line : Text)
      → length (clients before []) ≡ id
      → id < max_clients
      → ((handle (some (true, init_message name)) (run before start)).sent
          ≡ (run before start).sent ++ ((name, assigned id) ∷ []))
        × ((behind : List Text) × (clients later (clients before [] ++ (name ∷ []))
              ≡ clients before [] ++ (name ∷ behind))
            × ((handle (some (true, line_of id line)) server).sent
                ≡ server.sent ++ map (λ q. (q, line_of id line)) (clients before [] ++ behind)))
  joined_client id line e lt =
      let names = clients before [] in
      let (answered, registered) =
        init_answered (run before start) names (init_message name) (run-Registers before) refl
          (omega (arith, e)) in
      let (behind, order) = clients-behind later (names ++ (name ∷ [])) in
      let heard =
        text-others server (clients later (names ++ (name ∷ []))) (line_of id line) true
          (run-from later _ _ registered) refl in
      let all = order ∙ append_assoc names (name ∷ []) behind in
      let spared =
        ap (others (pos id) 0) all ∙ others-place names name behind 0 id (omega (arith, e)) in
      (
        answered ∙ ap (λ k. (run before start).sent ++ ((name, assigned k) ∷ [])) e,
        (behind, all, heard ∙ ap (λ l. server.sent ++ map (λ q. (q, line_of id line)) l) spared),
      )

-- How a client's attempt to connect may end.
pub Tidy : Calls → Text → State → Type 0
Tidy calls name (exited status removed) =
    (removed ≡ calls.own_queue_ok) × (status ≡ (if removed then 0 else 1))
Tidy calls name waiting = calls.reply (init_message name) ≡ silence
Tidy calls name (chatting id) =
    (m : ChatMessage) × (calls.reply (init_message name) ≡ message m)
    × (m.kind ≡ msg_id_assign)
    × (m.client_id ≡ id)

module _ (calls : Calls) (name : Text) where
  fork-Tidy :
      (m : ChatMessage) (k : MessageType)
      → calls.own_queue_ok ≡ true
      → calls.reply (init_message name) ≡ message m
      → m.kind ≡ k
      → Tidy calls name (fork_and_chat calls.fork_ok k m.client_id)
  unfolding Tidy
  fork-Tidy m msg_id_assign own r k =
      if_elim (Tidy calls name) calls.fork_ok {x = chatting m.client_id} {y = cleanup}
        (m, r, k, refl) (sym own, refl)
  fork-Tidy m msg_init own r k = (sym own, refl)
  fork-Tidy m msg_text own r k = (sym own, refl)

  reply-Tidy :
      (r : Reply)
      → calls.own_queue_ok ≡ true
      → calls.reply (init_message name) ≡ r
      → Tidy calls name (on_reply calls.fork_ok r)
  unfolding Tidy
  reply-Tidy silence own e = e
  reply-Tidy failed own e = (sym own, refl)
  reply-Tidy (message m) own e = fork-Tidy m m.kind own e refl

  -- However its calls come out, a client of lab4 that exits before its loops has removed its own
  -- queue if it had made it, and exits with the status 0 then, and with 1 otherwise; it waits for
  -- ever only when no reply comes; and it starts to chat only with the number of a reply of the type
  -- MSG_ID_ASSIGN.
  pub connect-Tidy : Tidy calls name (connect calls name)
  unfolding connect Tidy
  connect-Tidy = go calls.own_queue_ok refl
    where
      go :
          (b : Bool)
          → calls.own_queue_ok ≡ b
          → Tidy calls name (
              if not b
              then exited 1 false
              else if not calls.server_queue_ok || not calls.send_ok
              then cleanup
              else on_reply calls.fork_ok (calls.reply (init_message name)))
      go false own = (sym own, refl)
      go true own =
          if_elim (Tidy calls name) (not calls.server_queue_ok || not calls.send_ok) {x = cleanup}
            (sym own, refl) (reply-Tidy (calls.reply (init_message name)) own refl)
