-- ===== src/Chat/Queues.antt =====
-- The private queues of the clients of lab4, and the server that waits in mq_send when one is full:
-- the loop of lab4/src/server.c over the clients, a call at a time. The server never takes a client
-- out of its table, also when the client has left and nobody reads its queue any more.
pub mod Delivered
pub mod Departed
pub mod Rounds
use sys_op.Prelude.{
  ℕ, zero, suc, ◌+◌, ◌-◌, Bool, true, false, if◌then◌else◌, ltb, List, [], ◌∷◌, Option, none, some,
  get_elem?, set,
}
use sys_op.Prelude.Int.{ℤ}
use sys_op.Chat.Server.{is_id}

-- How many messages a queue holds, and whether its client still reads it.
pub record Queue : Type 0 where
  pub held : ℕ
  pub is_read : Bool

-- MAX_MSG, the mq_maxmsg of every queue.
abbrev pub max_msg : ℕ
max_msg = 10

-- Waiting in mq_receive, or in the loop for a text that carries the number `id`, at client `i`.
pub data Loop : Type 0 where
  receiving : Loop
  sending : (id : ℤ) (i : ℕ) → Loop

-- `handled` are the numbers on the texts that the server is done with, newest first.
pub record Server : Type 0 where
  pub queues : List Queue
  pub loop : Loop
  pub handled : List ℤ

-- mq_send to the queue of client `i`, which blocks while the queue is full.
abbrev pub mq_send : ℤ → ℕ → Queue → Server → Server
mq_send id i q s =
    if ltb q.held max_msg
    then record s {
      queues = set s.queues i (record q { held = q.held + 1 });
      loop = sending id (i + 1);
    }
    else s

-- A round of the loop, or its end.
abbrev pub send_at : ℤ → ℕ → Option Queue → Server → Server
send_at id i none s = record s { loop = receiving; handled = id ∷ s.handled }
send_at id i (some q) s =
    if is_id i id then record s { loop = sending id (i + 1) } else mq_send id i q s

abbrev pub receive_at : ℤ → Loop → Server → Server
receive_at id receiving s = record s { loop = sending id 0 }
receive_at id (sending other i) s = s

abbrev pub server_at : Loop → Server → Server
server_at receiving s = s
server_at (sending id i) s = send_at id i (get_elem? s.queues i) s

-- The child of a client takes a message.
abbrev pub read_at : ℕ → Option Queue → Server → Server
read_at j none s = s
read_at j (some q) s =
    if q.is_read then record s { queues = set s.queues j (record q { held = q.held - 1 }) } else s

-- A text arrives at the server when it waits for one, the server makes a call of its loop, or the
-- child of client `j` reads.
pub data Turn : Type 0 where
  text : ℤ → Turn
  server : Turn
  child : ℕ → Turn

unfoldable pub step : Turn → Server → Server
step (text id) s = receive_at id s.loop s
step server s = server_at s.loop s
step (child j) s = read_at j (get_elem? s.queues j) s

unfoldable pub run : List Turn → Server → Server
run [] s = s
run (t ∷ ts) s = run ts (step t s)
