-- ===== src/Chat/Server.antt =====
-- The server of lab4, in lab4/src/server.c: the table of clients, and what it does with a message.
use sys_op.Prelude.{
  ℕ, zero, suc, ◌+◌, Bool, false, ◌&&◌, if◌then◌else◌, ltb, ◌==◌, List, [], ◌∷◌, ◌++◌, Option, none,
  some, set, get_or, replicate,
}
use sys_op.Prelude.Int.{ℤ, pos, negsuc}

abbrev pub Text : Type 0
Text = List ℕ

pub data MessageType : Type 0 where
  msg_init msg_id_assign msg_text : MessageType

pub record ChatMessage : Type 0 where
  pub kind : MessageType
  pub client_id : ℤ
  pub queue_name : Text
  pub text : Text

abbrev pub max_clients : ℕ
max_clients = 10

-- A queue that has been opened goes by its name. `none` in the table is `(mqd_t) -1`; `sent` are the
-- calls of mq_send so far, oldest first.
pub record Server : Type 0 where
  pub client_queues : List (Option Text)
  pub active_clients : ℕ
  pub sent : List (Text × ChatMessage)

unfoldable pub start : Server
start = record { client_queues = replicate max_clients none; active_clients = 0; sent = [] }

abbrev pub is_id : ℕ → ℤ → Bool
is_id i (pos n) = i == n
is_id i (negsuc n) = false

-- The send of one round of the loop over the clients.
abbrev pub send_to : Option Text → ChatMessage → List (Text × ChatMessage)
send_to none msg = []
send_to (some queue) msg = (queue, msg) ∷ []

-- The loop over the clients from `i` on, with `n` to go.
unfoldable pub broadcast : List (Option Text) → ChatMessage → ℕ → ℕ → List (Text × ChatMessage)
broadcast queues msg i zero = []
broadcast queues msg i (suc n) =
    (if is_id i msg.client_id then [] else send_to (get_or queues i none) msg)
    ++ broadcast queues msg (i + 1) n

abbrev pub assigned : ℕ → ChatMessage
assigned new_id = record {
  kind = msg_id_assign;
  client_id = pos new_id;
  queue_name = [];
  text = [];
}

-- MSG_INIT; `open_ok` tells whether mq_open opens the client's queue.
unfoldable pub initialize : Bool → Text → Server → Server
initialize open_ok name s =
    if ltb s.active_clients max_clients && open_ok
    then record {
      client_queues = set s.client_queues s.active_clients (some name);
      active_clients = s.active_clients + 1;
      sent = s.sent ++ ((name, assigned s.active_clients) ∷ []);
    }
    else s

unfoldable pub forward : ChatMessage → Server → Server
forward msg s = record s { sent = s.sent ++ broadcast s.client_queues msg 0 s.active_clients }

abbrev pub handle_kind : MessageType → Bool → ChatMessage → Server → Server
handle_kind msg_init open_ok msg s = initialize open_ok msg.queue_name s
handle_kind msg_id_assign open_ok msg s = s
handle_kind msg_text open_ok msg s = forward msg s

-- A round of the server's loop; `none`: mq_receive fails.
unfoldable pub handle : Option (Bool × ChatMessage) → Server → Server
handle none s = s
handle (some (open_ok, msg)) s = handle_kind msg.kind open_ok msg s

unfoldable pub run : List (Option (Bool × ChatMessage)) → Server → Server
run [] s = s
run (e ∷ es) s = run es (handle e s)

-- How the server ends, and whether its own queue is left behind: when it cannot make its queue (an
-- old one has been removed before), or by cleanup_handler when a signal ends its loop.
pub record Ended : Type 0 where
  pub status : ℕ
  pub queue_left : Bool
  pub sent_all : List (Text × ChatMessage)

unfoldable pub main : Bool → List (Option (Bool × ChatMessage)) → Ended
main open_ok events =
    if open_ok
    then record { status = 0; queue_left = false; sent_all = (run events start).sent }
    else record { status = 1; queue_left = false; sent_all = [] }
