-- ===== src/Chat/Client.antt =====
-- The client of lab4, in lab4/src/client.c: how it connects, and what it sends and shows then.
use sys_op.Prelude.{
  ℕ, Bool, true, false, not, ◌||◌, if◌then◌else◌, ◌==◌, List, [], ◌∷◌, ◌++◌, Option, none, some,
}
use sys_op.Prelude.Int.{ℤ, pos}
use sys_op.Chat.Server.{Text, ChatMessage, MessageType, msg_init, msg_id_assign, msg_text}

-- What mq_receive does on the client's queue before the reply. `silence`: nothing comes.
pub data Reply : Type 0 where
  silence : Reply
  failed : Reply
  message : ChatMessage → Reply

-- What the client's calls do. `reply` is the answer to what it has sent.
pub record Calls : Type 0 where
  pub own_queue_ok : Bool
  pub server_queue_ok : Bool
  pub send_ok : Bool
  pub reply : ChatMessage → Reply
  pub fork_ok : Bool

-- What becomes of the client; `exited status removed` tells whether it has removed its own queue.
pub data State : Type 0 where
  exited : (status : ℕ) → (removed : Bool) → State
  waiting : State
  chatting : (my_id : ℤ) → State

-- cleanup_handler, with its exit.
abbrev pub cleanup : State
cleanup = exited 0 true

abbrev pub init_message : Text → ChatMessage
init_message name = record { kind = msg_init; client_id = pos 0; queue_name = name; text = [] }

abbrev pub fork_and_chat : Bool → MessageType → ℤ → State
fork_and_chat fork_ok msg_id_assign id = if fork_ok then chatting id else cleanup
fork_and_chat fork_ok msg_init id = cleanup
fork_and_chat fork_ok msg_text id = cleanup

abbrev pub on_reply : Bool → Reply → State
on_reply fork_ok silence = waiting
on_reply fork_ok failed = cleanup
on_reply fork_ok (message msg) = fork_and_chat fork_ok msg.kind msg.client_id

-- `main` up to the two loops; `name` is the name that its PID gives to its queue.
unfoldable pub connect : Calls → Text → State
connect calls name =
    if not calls.own_queue_ok
    then exited 1 false
    else if not calls.server_queue_ok || not calls.send_ok
    then cleanup
    else on_reply calls.fork_ok (calls.reply (init_message name))

-- strcmp(line, "\n") == 0
is_empty : Text → Bool
is_empty (c ∷ []) = c == 10
is_empty _ = false

-- The sender's loop over the lines that fgets reads.
unfoldable pub send_lines : ℤ → List Text → List ChatMessage
unfolding is_empty
send_lines my_id [] = []
send_lines my_id (line ∷ lines) =
    let rest = send_lines my_id lines in
    if is_empty line
    then rest
    else record { kind = msg_text; client_id = my_id; queue_name = []; text = line } ∷ rest

-- `bytes > 0` and the test for a text.
abbrev pub shown : MessageType → ChatMessage → List (ℤ × Text)
shown msg_text msg = (msg.client_id, msg.text) ∷ []
shown msg_init msg = []
shown msg_id_assign msg = []

-- The lines that the child shows, by the number and the text, for what mq_receive brings; `none`: it
-- fails, or brings nothing.
unfoldable pub receive_lines : List (Option ChatMessage) → List (ℤ × Text)
receive_lines [] = []
receive_lines (none ∷ events) = receive_lines events
receive_lines (some msg ∷ events) = shown msg.kind msg ++ receive_lines events
