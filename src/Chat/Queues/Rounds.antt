-- ===== src/Chat/Queues/Rounds.antt =====
-- A whole round of the loop of lab4/src/server.c over the clients, call by call.
use sys_op.Prelude.{
  ℕ, suc, ◌+◌, ◌≡◌, refl, sym, ap, ◌∙◌, subst, Bool, true, false, if◌then◌else◌, ltb, List, [], ◌∷◌,
  ◌++◌, some, none, ◌⊎◌, inl, inr, Bool-cases, arith, get_elem?, set, length, length-append,
  append_assoc, replicate, map,
}
use sys_op.Prelude.Int.{ℤ}
use sys_op.Chat.Server.{ChatMessage, msg_text, is_id, handle}
use sys_op.Chat.Server as Chat
use sys_op.Chat.Clients.{others, Registers, text-others}
use sys_op.Chat.Queues.{
  Queue, max_msg, receiving, sending, Server, mq_send, send_at, receive_at, text, server, step, run,
}

-- No queue is full but perhaps that of the client with the number `id`, the first being client `i`.
abbrev pub HasRoom : ℤ → ℕ → List Queue → Type 0
HasRoom id i [] = Unit
HasRoom id i (q ∷ qs) = ((is_id i id ≡ true) ⊎ (ltb q.held max_msg ≡ true)) × HasRoom id (i + 1) qs

abbrev one_more : Bool → Queue → Queue
one_more own q = if own then q else record q { held = q.held + 1 }

-- One message more in each queue but that of the client with the number `id`.
abbrev pub with_text : ℤ → ℕ → List Queue → List Queue
with_text id i [] = []
with_text id i (q ∷ qs) = one_more (is_id i id) q ∷ with_text id (i + 1) qs

at_end :
    (done rest : List Queue) (q : Queue) → get_elem? (done ++ (q ∷ rest)) (length done) ≡ some q
at_end [] rest q = refl
at_end (d ∷ done) rest q = at_end done rest q

past_end : (done : List Queue) → get_elem? (done ++ []) (length done) ≡ none
past_end [] = refl
past_end (d ∷ done) = past_end done

set_end :
    (done rest : List Queue) (q r : Queue)
    → set (done ++ (q ∷ rest)) (length done) r ≡ (done ++ (r ∷ [])) ++ rest
set_end [] rest q r = refl
set_end (d ∷ done) rest q r = ap (λ l. d ∷ l) (set_end done rest q r)

abbrev at_client : List Queue → ℤ → ℕ → List ℤ → Server
at_client queues id i handled = record { queues = queues; loop = sending id i; handled = handled }

-- The server amid the loop, with the queues of the clients that it has passed and of the others.
abbrev amid : List Queue → List Queue → ℤ → List ℤ → Server
amid done rest id handled = at_client (done ++ rest) id (length done) handled

same_server :
    (id : ℤ) (h : List ℤ) {qs rs : List Queue} {i j : ℕ}
    → qs ≡ rs
    → i ≡ j
    → at_client qs id i h ≡ at_client rs id j h
same_server id h e f = λ t. at_client (e t) id (f t) h

sends :
    (done rest : List Queue) (q : Queue) (id : ℤ) (h : List ℤ)
    → (is_id (length done) id ≡ true) ⊎ (ltb q.held max_msg ≡ true)
    → is_id (length done) id ≡ false
    → mq_send id (length done) q (amid done (q ∷ rest) id h)
      ≡ amid (done ++ (record q { held = q.held + 1 } ∷ [])) rest id h
sends done rest q id h (inl own) other = absurd (cc)
sends done rest q id h (inr room) other = rw room (
    same_server id h (set_end done rest q (record q { held = q.held + 1 }))
      (sym (length-append done (record q { held = q.held + 1 } ∷ []))))

-- The call for the next client.
next_client :
    (done rest : List Queue) (q : Queue) (id : ℤ) (h : List ℤ)
    → (is_id (length done) id ≡ true) ⊎ (ltb q.held max_msg ≡ true)
    → step server (amid done (q ∷ rest) id h)
      ≡ amid (done ++ (one_more (is_id (length done) id) q ∷ [])) rest id h
unfolding step
next_client done rest q id h room =
    subst
      (λ o.
        send_at id (length done) o (amid done (q ∷ rest) id h)
        ≡ amid (done ++ (one_more (is_id (length done) id) q ∷ [])) rest id h)
      (sym (at_end done rest q))
      (elim (Bool-cases (is_id (length done) id)) [
        | inl own ↦ rw own (
            same_server id h (sym (append_assoc done (q ∷ []) rest))
              (sym (length-append done (q ∷ []))))
        | inr other ↦ rw other (sends done rest q id h room other)
      ])

-- Behind the loop.
abbrev pub ended : List Queue → ℤ → List ℤ → Server
ended queues id handled = record { queues = queues; loop = receiving; handled = id ∷ handled }

-- The rest of the loop.
loop_from :
    (done rest : List Queue) (id : ℤ) (h : List ℤ)
    → HasRoom id (length done) rest
    → run (replicate (suc (length rest)) server) (amid done rest id h)
      ≡ ended (done ++ with_text id (length done) rest) id h
unfolding run step
loop_from done [] id h room =
    ap (λ o. send_at id (length done) o (amid done [] id h)) (past_end done)
loop_from done (q ∷ rest) id h (room, later) =
    let q' : Queue = one_more (is_id (length done) id) q in
    let counted : length (done ++ (q' ∷ [])) ≡ length done + 1 = length-append done (q' ∷ []) in
    ap (run (replicate (suc (length rest)) server)) (next_client done rest q id h room)
    ∙ loop_from (done ++ (q' ∷ [])) rest id h (subst (λ n. HasRoom id n rest) (sym counted) later)
    ∙ ap (λ qs. ended qs id h)
        (ap (λ n. (done ++ (q' ∷ [])) ++ with_text id n rest) counted
          ∙ append_assoc done (q' ∷ []) (with_text id (length done + 1) rest))

-- How many messages the queues hold together.
abbrev pub held_all : List Queue → ℕ
held_all [] = 0
held_all (q ∷ qs) = q.held + held_all qs

with_text-others :
    (id : ℤ) (i : ℕ) (names : List Chat.Text) (qs : List Queue)
    → length names ≡ length qs
    → held_all (with_text id i qs) ≡ held_all qs + length (others id i names)
unfolding others
with_text-others id i [] [] e = refl
with_text-others id i [] (q ∷ qs) e = absurd (omega (arith, e))
with_text-others id i (n ∷ names) [] e = absurd (omega (arith, e))
with_text-others id i (n ∷ names) (q ∷ qs) e =
    let rest = with_text-others id (i + 1) names qs (omega (arith, e)) in ground (arith, rest)

abbrev to_each : ChatMessage → List Chat.Text → List (Chat.Text × ChatMessage)
to_each msg names = map (λ q. (q, msg)) names

length-sends :
    (msg : ChatMessage) (names : List Chat.Text) → length (to_each msg names) ≡ length names
length-sends msg [] = refl
length-sends msg (n ∷ names) = ap suc (length-sends msg names)

-- With one queue for each registered client: a text that comes while the server waits for one and no
-- queue is full, that of the sender aside, takes one call for each client and one more, after which
-- the server waits again, each queue but the sender's holds one message more, and the queues
-- together hold as many more as `handle` sends by the table.
pub round-handle :
    (t : Chat.Server) (names : List Chat.Text) (msg : ChatMessage) (open_ok : Bool)
    → Registers t names
    → msg.kind ≡ msg_text
    → (s : Server) → length names ≡ length s.queues
    → s.loop ≡ receiving
    → HasRoom msg.client_id 0 s.queues
    → (run (text msg.client_id ∷ replicate (suc (length s.queues)) server) s
        ≡ ended (with_text msg.client_id 0 s.queues) msg.client_id s.handled)
      × (held_all (with_text msg.client_id 0 s.queues) + length t.sent
          ≡ held_all s.queues + length (handle (some (open_ok, msg)) t).sent)
unfolding run step
round-handle t names msg open_ok h kind s same waits room = (
  ap (λ l. run (replicate (suc (length s.queues)) server) (receive_at msg.client_id l s)) waits
      ∙ loop_from [] s.queues msg.client_id s.handled room,
  omega (
    arith,
    ap length (text-others t names msg open_ok h kind),
    length-append t.sent (to_each msg (others msg.client_id 0 names)),
    length-sends msg (others msg.client_id 0 names),
    with_text-others msg.client_id 0 names s.queues same,
  ),
)
