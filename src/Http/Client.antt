-- ===== src/Http/Client.antt =====
-- The client of lab7, in lab7/src/client/main.c.
use sys_op.Prelude.{ℕ, Bool, not, ◌||◌, if◌then◌else◌, List, [], ◌∷◌, ◌++◌, take, codes}
use sys_op.Http.Decimal.{Bytes}
use sys_op.Http.Server.{snprintf, Call, opened, sent, closed, socket_fd}

-- What recv does.
pub data Response : Type 0 where
  failed : Response
  empty : Response
  text : Bytes → Response

-- What the system's calls do. `is_address`: inet_pton reads the text as an address.
pub record Network : Type 0 where
  pub socket_ok : Bool
  pub is_address : Bytes → Bool
  pub connect_ok : Bytes → Bytes → Bool
  pub send_ok : Bytes → Bool
  pub response : Bytes → Response

-- The exit status, the calls on the socket, and what is printed on the standard output.
pub record Exit : Type 0 where
  pub status : ℕ
  pub calls : List Call
  pub output : Bytes

unfoldable pub message : Bytes → Bytes
message number = snprintf 1024 (codes "ZADANIE " ++ number)

abbrev pub failure : List Call → Exit
failure calls = record { status = 1; calls = calls; output = [] }

-- From the reception on; `bytes` are sent.
unfoldable pub receive : Bytes → Response → Exit
receive bytes failed = failure (opened socket_fd ∷ sent socket_fd bytes ∷ closed socket_fd ∷ [])
receive bytes empty = failure (opened socket_fd ∷ sent socket_fd bytes ∷ closed socket_fd ∷ [])
receive bytes (text reply) = record {
  status = 0;
  calls = opened socket_fd ∷ sent socket_fd bytes ∷ closed socket_fd ∷ [];
  output = take 1023 reply ++ 10 ∷ [];
}

-- From the connection on. A send that fails has sent nothing.
unfoldable pub transfer : Network → Bytes → Exit
transfer net bytes =
    if net.send_ok bytes
    then receive bytes (net.response bytes)
    else failure (opened socket_fd ∷ closed socket_fd ∷ [])

unfoldable pub main : Network → List Bytes → Exit
main net (program ∷ address ∷ port ∷ number ∷ []) =
    if not net.socket_ok
    then failure []
    else if not (net.is_address address) || not (net.connect_ok address port)
    then failure (opened socket_fd ∷ closed socket_fd ∷ [])
    else transfer net (message number)
main net argv = failure []
