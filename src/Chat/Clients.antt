-- ===== src/Chat/Clients.antt =====
-- The table of the lab4 server as a list of clients, and who receives a message.
use sys_op.Prelude.{
  ℕ, suc, ◌+◌, ◌-◌, ◌≤◌, ◌<◌, ◌≡◌, refl, sym, ap, subst, ◌∙◌, Bool, true, false, ◌&&◌,
  if◌then◌else◌, ltb, List, [], ◌∷◌, ◌++◌, Option, none, some, set, get_or, replicate, length,
  length-append, append_assoc, map, arith,
}
use sys_op.Prelude.Int.{ℤ}
use sys_op.Chat.Server.{
  Text, MessageType, msg_init, msg_id_assign, msg_text, ChatMessage, max_clients, Server, start,
  is_id, send_to, broadcast, assigned, initialize, forward, handle_kind, handle, run,
}

-- The clients' queues, in the order of their numbers.
pub record Registers (s : Server) (names : List Text) : Type 0 where
  pub table : s.client_queues ≡ map some names ++ replicate (max_clients - length names) none
  pub counted : s.active_clients ≡ length names
  pub fits : length names ≤ max_clients

abbrev pub after_kind : MessageType → Bool → Text → List Text → List Text
after_kind msg_init open_ok name names =
    if ltb (length names) max_clients && open_ok then names ++ (name ∷ []) else names
after_kind msg_id_assign open_ok name names = names
after_kind msg_text open_ok name names = names

-- What a message makes of the clients: MSG_INIT adds one, if there is room and its queue opens.
unfoldable pub after : Option (Bool × ChatMessage) → List Text → List Text
after none names = names
after (some (open_ok, msg)) names = after_kind msg.kind open_ok msg.queue_name names

-- The queues of all clients but the one with the number `id`, where the first has the number `i`.
unfoldable pub others : ℤ → ℕ → List Text → List Text
others id i [] = []
others id i (name ∷ names) =
    let rest = others id (i + 1) names in if is_id i id then rest else name ∷ rest

set-slot :
    (names : List Text) (k : ℕ) (name : Text)
    → set (map some names ++ replicate (suc k) none) (length names) (some name)
      ≡ map some (names ++ (name ∷ [])) ++ replicate k none
set-slot [] k name = refl
set-slot (n ∷ names) k name = ap (λ l. some n ∷ l) (set-slot names k name)

-- The table with one client more.
joined :
    (s : Server) (names : List Text) (name : Text) (sent : List (Text × ChatMessage))
    → Registers s names
    → length names < max_clients
    → Registers
        (record {
          client_queues = set s.client_queues s.active_clients (some name);
          active_clients = s.active_clients + 1;
          sent = sent;
        })
        (names ++ (name ∷ []))
joined s names name sent h lt = record {
  table =
      ap (λ l. set l s.active_clients (some name)) h.table
      ∙ (ap (λ k. set (map some names ++ replicate (max_clients - length names) none) k (some name))
            h.counted
          ∙ (ap (λ k. set (map some names ++ replicate k none) (length names) (some name)) left_over
              ∙ (set-slot names (max_clients - length (names ++ (name ∷ []))) name)));
  counted = omega (arith, h.counted, length-append names (name ∷ []));
  fits = omega (arith, length-append names (name ∷ []));
}
  where
    left_over : max_clients - length names ≡ suc (max_clients - length (names ++ (name ∷ [])))
    left_over = omega (arith, length-append names (name ∷ []))

initialize-Registers :
    (s : Server) (names : List Text) (open_ok : Bool) (name : Text)
    → Registers s names
    → Registers
        (initialize open_ok name s)
        (if ltb (length names) max_clients && open_ok then names ++ (name ∷ []) else names)
unfolding initialize
initialize-Registers s names open_ok name h =
    go (ltb s.active_clients max_clients && open_ok) (ltb (length names) max_clients && open_ok)
      (ap (λ n. ltb n max_clients && open_ok) h.counted) (λ on. ground (arith, on))
  where
    go :
        (b c : Bool)
        → b ≡ c
        → (c ≡ true → length names < max_clients)
        → Registers
            (if b
              then record {
                client_queues = set s.client_queues s.active_clients (some name);
                active_clients = s.active_clients + 1;
                sent = s.sent ++ ((name, assigned s.active_clients) ∷ []);
              }
              else s)
            (if c then names ++ (name ∷ []) else names)
    go true true e room = joined s names name _ h (room refl)
    go false false e room = h
    go true false e room = absurd (cc)
    go false true e room = absurd (cc)

kind-Registers :
    (k : MessageType) (open_ok : Bool) (msg : ChatMessage) (s : Server) (names : List Text)
    → Registers s names
    → Registers (handle_kind k open_ok msg s) (after_kind k open_ok msg.queue_name names)
unfolding forward
kind-Registers msg_init open_ok msg s names h =
    initialize-Registers s names open_ok msg.queue_name h
kind-Registers msg_id_assign open_ok msg s names h = h
kind-Registers msg_text open_ok msg s names h = record {
  table = h.table;
  counted = h.counted;
  fits = h.fits;
}

handle-Registers :
    (e : Option (Bool × ChatMessage)) (s : Server) (names : List Text)
    → Registers s names
    → Registers (handle e s) (after e names)
unfolding handle after
handle-Registers none s names h = h
handle-Registers (some (open_ok, msg)) s names h = kind-Registers msg.kind open_ok msg s names h

slot-at :
    (done names : List Text) (n : Text) (rest : List (Option Text))
    → get_or (map some (done ++ (n ∷ names)) ++ rest) (length done) none ≡ some n
slot-at [] names n rest = refl
slot-at (d ∷ done) names n rest = slot-at done names n rest

send-unless :
    (b : Bool) (n : Text) (ns : List Text) (msg : ChatMessage)
    → (if b then [] else send_to (some n) msg) ++ map (λ q. (q, msg)) ns
      ≡ map (λ q. (q, msg)) (if b then ns else n ∷ ns)
send-unless true n ns msg = refl
send-unless false n ns msg = refl

broadcast-others :
    (msg : ChatMessage) (done names : List Text) (rest : List (Option Text))
    → broadcast (map some (done ++ names) ++ rest) msg (length done) (length names)
      ≡ map (λ q. (q, msg)) (others msg.client_id (length done) names)
unfolding broadcast others
broadcast-others msg done [] rest = refl
broadcast-others msg done (n ∷ names) rest =
    let next = broadcast-others msg (done ++ (n ∷ [])) names rest in
    let next' = rw (append_assoc done (n ∷ []) names, length-append done (n ∷ [])) at next in
    rw (slot-at done names n rest, next')
      (send-unless (is_id (length done) msg.client_id) n
        (others msg.client_id (length done + 1) names) msg)

-- The clients after a series of messages.
unfoldable pub clients : List (Option (Bool × ChatMessage)) → List Text → List Text
clients [] names = names
clients (e ∷ es) names = clients es (after e names)

pub run-from :
    (es : List (Option (Bool × ChatMessage))) (s : Server) (names : List Text)
    → Registers s names
    → Registers (run es s) (clients es names)
unfolding run clients
run-from [] s names h = h
run-from (e ∷ es) s names h =
    run-from es (handle e s) (after e names) (handle-Registers e s names h)

-- After any messages the server's table holds, in its first `active_clients` places, the queues of
-- the clients that it has registered, in the order in which they came, and nothing behind; they are
-- at most ten, and those whom MSG_INIT has added, when there was room and their queue opened.
pub run-Registers :
    (es : List (Option (Bool × ChatMessage))) → Registers (run es start) (clients es [])
unfolding start
run-Registers es =
    run-from es start [] (record { table = refl; counted = refl; fits = omega arith })

-- A text goes, unchanged and once, to each registered client but the one whose number it carries, in
-- the order of their numbers, and to no one else.
pub text-others :
    (s : Server) (names : List Text) (msg : ChatMessage) (open_ok : Bool)
    → Registers s names
    → msg.kind ≡ msg_text
    → (handle (some (open_ok, msg)) s).sent
      ≡ s.sent ++ map (λ q. (q, msg)) (others msg.client_id 0 names)
unfolding handle forward
text-others s names msg open_ok h text =
    subst (λ k. (handle_kind k open_ok msg s).sent ≡ s.sent ++ received) (sym text)
      (ap (λ l. s.sent ++ l)
        (ap (λ qs. broadcast qs msg 0 s.active_clients) h.table
          ∙ (ap (λ n. broadcast (map some names ++ free) msg 0 n) h.counted
              ∙ broadcast-others msg [] names free)))
  where
    free : List (Option Text)
    free = replicate (max_clients - length names) none

    received : List (Text × ChatMessage)
    received = map (λ q. (q, msg)) (others msg.client_id 0 names)

-- A client whose MSG_INIT comes when there is room, and whose queue opens, gets one message: the
-- number of its place in the table.
pub init_answered :
    (s : Server) (names : List Text) (msg : ChatMessage)
    → Registers s names
    → msg.kind ≡ msg_init
    → length names < max_clients
    → ((handle (some (true, msg)) s).sent
        ≡ s.sent ++ ((msg.queue_name, assigned (length names)) ∷ []))
      × Registers (handle (some (true, msg)) s) (names ++ (msg.queue_name ∷ []))
unfolding handle initialize
init_answered s names msg h init lt =
    subst
      (λ k.
        ((handle_kind k true msg s).sent
          ≡ s.sent ++ ((msg.queue_name, assigned (length names)) ∷ []))
        × Registers (handle_kind k true msg s) (names ++ (msg.queue_name ∷ [])))
      (sym init)
      (
        rw room (ap (λ n. s.sent ++ ((msg.queue_name, assigned n) ∷ [])) h.counted),
        subst
            (λ b.
              Registers (initialize true msg.queue_name s)
                (if b then names ++ (msg.queue_name ∷ []) else names))
            (ap (λ n. ltb n max_clients && true) (sym h.counted) ∙ room)
            (initialize-Registers s names true msg.queue_name h),
      )
  where
    room : (ltb s.active_clients max_clients && true) ≡ true
    room = ground (arith, h.counted)

-- When ten clients are registered, MSG_INIT changes nothing and is not answered.
pub init_ignored :
    (s : Server) (names : List Text) (msg : ChatMessage) (open_ok : Bool)
    → Registers s names
    → msg.kind ≡ msg_init
    → length names ≡ max_clients
    → handle (some (open_ok, msg)) s ≡ s
unfolding handle initialize
init_ignored s names msg open_ok h init full =
    let no_room : (ltb s.active_clients max_clients && open_ok) ≡ false =
      ground (arith, h.counted) in
    subst (λ k. handle_kind k open_ok msg s ≡ s) (sym init) (rw no_room refl)
