-- ===== src/Http/Server.antt =====
-- The server of lab7, in lab7/src/server/main.c: requests, iterations, start and shutdown.
use sys_op.Prelude.{
  ℕ, ◌-◌, ◌≡◌, Bool, true, false, not, ◌||◌, if◌then◌else◌, List, [], ◌∷◌, ◌++◌, Option, none, some,
  length, take, drop, codes, ◌==◌,
}
use sys_op.Prelude.Int.{ℤ, pos, ◌+ℤ◌}
use sys_op.Http.Decimal.{Bytes, print_int, read_int, IsInt}

-- What the compiler makes of arithmetic on `int` out of its range, where C leaves the result open.
pub record Arithmetic : Type 0 where
  pub wrap : ℤ → ℤ
  pub wrap_exact : (v : ℤ) → IsInt v → wrap v ≡ v
  pub wrap-IsInt : (v : ℤ) → IsInt (wrap v)

-- strncmp(rx, prefix, strlen(prefix)) == 0, for a prefix without a null byte.
unfoldable pub starts_with : Bytes → Bytes → Bool
starts_with [] rx = true
starts_with (c ∷ cs) [] = false
starts_with (c ∷ cs) (r ∷ rx) = let rest = starts_with cs rx in if c == r then rest else false

-- snprintf into an array of `size` bytes: the text in the array.
abbrev pub snprintf : ℕ → Bytes → Bytes
snprintf size text = take (size - 1) text

abbrev crlf : Bytes
crlf = 13 ∷ 10 ∷ []

-- "Liczba pobrań strony: %d", in UTF-8.
unfoldable pub page : ℤ → Bytes
page request_counter =
    codes "Liczba pobra" ++ 197 ∷ 132 ∷ codes " strony: " ++ print_int request_counter

-- The headers up to the value of the last.
unfoldable pub headers : Bytes
headers =
    codes "HTTP/1.1 200 OK"
    ++ crlf
    ++ codes "Server: Zajeciowy serwer SO"
    ++ crlf
    ++ codes "Content-Type: text/plain; charset=utf-8"
    ++ crlf
    ++ codes "Connection: close"
    ++ crlf
    ++ codes "Cache-Control: no-store"
    ++ crlf
    ++ codes "Content-Length: "

unfoldable pub http_reply : ℤ → Bytes
http_reply request_counter =
    let body_len = length (page request_counter) in
    let http_body = snprintf 1024 (page request_counter) in
    snprintf 2048 (headers ++ (print_int (pos body_len) ++ (crlf ++ crlf ++ http_body)))

-- sscanf(rx_buffer, "ZADANIE %d", …), for a text that begins with the keyword.
unfoldable pub task_value : Bytes → Option ℤ
task_value rx = read_int (drop 7 rx)

abbrev pub is_http : Bytes → Bool
is_http rx = starts_with (codes "GET") rx || starts_with (codes "POST") rx

module _ (m : Arithmetic) where
  open m use {wrap}

  -- The counter after a ZADANIE request.
  unfoldable pub add_task : ℤ → Option ℤ → ℤ
  add_task request_counter none = request_counter
  add_task request_counter (some v) = wrap (request_counter +ℤ wrap v)

  -- The counter after a request, and the bytes sent, if any.
  unfoldable pub handle_request : ℤ → Bytes → ℤ × Option Bytes
  handle_request request_counter rx =
      let counted = wrap (request_counter +ℤ pos 1) in
      let added = add_task request_counter (task_value rx) in
      if is_http rx
      then (counted, some (http_reply counted))
      else if starts_with (codes "ZADANIE") rx
      then (added, some (snprintf 2048 (page added)))
      else (request_counter, none)

-- A descriptor is the variable that holds it.
pub data Fd : Type 0 where
  server_fd : Fd
  client_fd : Fd
  socket_fd : Fd

pub data Call : Type 0 where
  opened : Fd → Call
  sent : Fd → Bytes → Call
  closed : Fd → Call

-- What accept4 and recv do in an iteration.
pub data Outcome : Type 0 where
  accept_failed : Outcome
  recv_failed : Outcome
  disconnected : Outcome
  received : Bytes → Outcome

-- `interrupted`: handle_sigint runs during the iteration.
pub record Iteration : Type 0 where
  pub outcome : Outcome
  pub interrupted : Bool

pub record Server : Type 0 where
  pub keep_running : Bool
  pub request_counter : ℤ
  pub calls : List Call

abbrev pub reply_calls : Option Bytes → List Call
reply_calls none = []
reply_calls (some text) = sent client_fd text ∷ []

-- Which calls of the start succeed, and whether SIGINT comes before the loop.
pub record Startup : Type 0 where
  pub sigaction_ok : Bool
  pub socket_ok : Bool
  pub setsockopt_ok : Bool
  pub bind_ok : Bool
  pub listen_ok : Bool
  pub interrupted_early : Bool

abbrev pub started : Startup → Server
started os = record {
  keep_running = not os.interrupted_early;
  request_counter = pos 0;
  calls = opened server_fd ∷ [];
}

pub data Result : Type 0 where
  exited : ℕ → List Call → Result
  waiting : Server → Result

unfoldable pub shut_down : Server → Result
shut_down s = if s.keep_running then waiting s else exited 0 (s.calls ++ closed server_fd ∷ [])

module _ (m : Arithmetic) where
  -- The counter after an iteration, and its calls. recv reads 1023 bytes at most.
  unfoldable pub serve : ℤ → Outcome → ℤ × List Call
  serve n accept_failed = (n, [])
  serve n recv_failed = (n, opened client_fd ∷ closed client_fd ∷ [])
  serve n disconnected = (n, opened client_fd ∷ closed client_fd ∷ [])
  serve n (received text) =
      let (counter, reply) = handle_request m n (take 1023 text) in
      (counter, opened client_fd ∷ reply_calls reply ++ closed client_fd ∷ [])

  unfoldable pub iterate : Server → Iteration → Server
  iterate s e =
      let (counter, new_calls) = serve s.request_counter e.outcome in
      record {
        keep_running = if e.interrupted then false else s.keep_running;
        request_counter = counter;
        calls = s.calls ++ new_calls;
      }

  -- The loop, up to the end of the events.
  unfoldable pub loop : Server → List Iteration → Server
  loop s [] = s
  loop s (e ∷ es) = let rest = loop (iterate s e) es in if s.keep_running then rest else s

  unfoldable pub main : Startup → List Iteration → Result
  main os es =
      if not os.sigaction_ok || not os.socket_ok
      then exited 1 []
      else if not os.setsockopt_ok || not os.bind_ok || not os.listen_ok
      then exited 1 (opened server_fd ∷ closed server_fd ∷ [])
      else shut_down (loop (started os) es)
