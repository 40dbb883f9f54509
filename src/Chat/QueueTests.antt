-- ===== src/Chat/QueueTests.antt =====
-- A chat of lab4 that a client has left.
use sys_op.Prelude.{
  ℕ, get_elem?, replicate, length, some, suc, inl, inr, codes, ◌+◌, ◌≤◌, ◌≡◌, refl, List, [], ◌∷◌,
  ◌++◌, arith, true, false,
}
use sys_op.Prelude.Int.{pos}
use sys_op.Chat.Server.{Text, start, handle}
use sys_op.Chat.Server as Chat
use sys_op.Chat.Clients.{Registers, clients, after, run-Registers}
use sys_op.Chat.Client.{init_message}
use sys_op.Chat.Handshake.{line_of}
use sys_op.Chat.Queues.Delivered.{taken, delivered_once}
use sys_op.Chat.Queues.Delivered.ServerCalls.{heard, passed}
use sys_op.Chat.Queues.Rounds.{with_text, held_all, ended, round-handle}
use sys_op.Chat.Queues.{max_msg, Server, receiving, sending, Turn, text, server, child, step, run}
use sys_op.Chat.Queues.Departed.{departed_client}

-- Client 1 has left behind 9 messages.
abbrev chat : Server
chat = record {
  queues =
      record { held = 0; is_read = true }
      ∷ record { held = 9; is_read = false }
      ∷ record { held = 3; is_read = true }
      ∷ [];
  loop = receiving;
  handled = [];
}

-- One text goes through, and the next one does not.
abbrev one_text : List Turn
one_text = text (pos 0) ∷ server ∷ server ∷ server ∷ server ∷ child 2 ∷ []

abbrev turns : List Turn
turns = one_text ++ one_text

departed_client_example : 9 + heard 1 (run turns chat).handled ≤ 10
departed_client_example = departed_client 1 9 chat turns refl (omega arith) refl refl

stays_sending : (run turns chat).loop ≡ sending (pos 0) 1
unfolding run step
stays_sending = refl

-- Client 2 reads.
delivered_once_example :
    (held : ℕ) × (get_elem? (run turns chat).queues 2
      ≡ some (record { held = held; is_read = true }))
    × (held + taken 2 turns chat
        ≡ 3 + heard 2 (run turns chat).handled + passed 2 (run turns chat).loop)
    × (held ≤ max_msg)
delivered_once_example = delivered_once 2 3 true chat turns refl (omega arith) refl refl

abbrev names : List Text
names = codes "/chat_client_41" ∷ codes "/chat_client_42" ∷ codes "/chat_client_43" ∷ []

abbrev table : Chat.Server
table =
    Chat.run
      (some (true, init_message (codes "/chat_client_41"))
        ∷ some (true, init_message (codes "/chat_client_42"))
        ∷ some (true, init_message (codes "/chat_client_43"))
        ∷ [])
      start

table-Registers : Registers table names
unfolding clients after
table-Registers = run-Registers (
    some (true, init_message (codes "/chat_client_41"))
    ∷ some (true, init_message (codes "/chat_client_42"))
    ∷ some (true, init_message (codes "/chat_client_43"))
    ∷ [])

-- No queue of `chat` is full.
round-handle_example :
    (run (text (pos 0) ∷ replicate (suc (length chat.queues)) server) chat
      ≡ ended (with_text (pos 0) 0 chat.queues) (pos 0) [])
    × (held_all (with_text (pos 0) 0 chat.queues) + length table.sent
        ≡ held_all chat.queues + length (handle (some (true, line_of 0 (codes "hi"))) table).sent)
round-handle_example =
    round-handle table names (line_of 0 (codes "hi")) true table-Registers refl chat refl refl
      (inl refl, (inr refl, (inr refl, tt)))
