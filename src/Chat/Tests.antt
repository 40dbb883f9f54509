-- ===== src/Chat/Tests.antt =====
-- The chat of lab4 with two clients, and with ten.
use sys_op.Prelude.{
  ◌≡◌, refl, Bool, true, List, [], ◌∷◌, ◌++◌, Option, none, some, map, codes, arith, replicate,
}
use sys_op.Prelude.Int.{pos}
use sys_op.Chat.Server.{Text, ChatMessage, start, handle, run, assigned}
use sys_op.Chat.Clients.{Registers, after, clients, others, run-Registers, text-others}
use sys_op.Chat.Client.{Calls, message, connect, init_message}
use sys_op.Chat.Handshake.{server, line_of, joined_client, Tidy, connect-Tidy}

abbrev first : Text
first = codes "/chat_client_41"

abbrev second : Text
second = codes "/chat_client_42"

abbrev joins : Text → Option (Bool × ChatMessage)
joins name = some (true, init_message name)

abbrev two : List (Option (Bool × ChatMessage))
two = joins first ∷ none ∷ joins second ∷ []

abbrev ten : List (Option (Bool × ChatMessage))
ten = replicate 10 (joins first)

two-Registers : Registers (run two start) (first ∷ second ∷ [])
unfolding clients after
two-Registers = run-Registers two

ten-Registers : Registers (run ten start) (replicate 10 first)
unfolding clients after
ten-Registers = run-Registers ten

text-others_example :
    (handle (some (true, line_of 0 (codes "hi"))) (run two start)).sent
    ≡ (run two start).sent
      ++ map (λ q. (q, line_of 0 (codes "hi"))) (others (pos 0) 0 (first ∷ second ∷ []))
text-others_example =
    text-others (run two start) (first ∷ second ∷ []) (line_of 0 (codes "hi")) true two-Registers
      refl

joined_client_example :
    ((handle (joins second) (run (joins first ∷ []) start)).sent
      ≡ (run (joins first ∷ []) start).sent ++ ((second, assigned 1) ∷ []))
    × ((behind : List Text) × (clients two (clients (joins first ∷ []) [] ++ (second ∷ []))
          ≡ clients (joins first ∷ []) [] ++ (second ∷ behind))
        × ((handle
              (some (true, line_of 1 (codes "hi")))
              (server (joins first ∷ []) two second)).sent
            ≡ (server (joins first ∷ []) two second).sent
              ++ map (λ q. (q, line_of 1 (codes "hi"))) (clients (joins first ∷ []) [] ++ behind)))
unfolding clients after
joined_client_example =
    joined_client (joins first ∷ []) two second 1 (codes "hi") refl (omega arith)

-- The server can be reached, and answers with the number 1.
abbrev calls : Calls
calls = record {
  own_queue_ok = true;
  server_queue_ok = true;
  send_ok = true;
  reply = λ _. message (assigned 1);
  fork_ok = true;
}

connect-Tidy_example : Tidy calls second (connect calls second)
connect-Tidy_example = connect-Tidy calls second
