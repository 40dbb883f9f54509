-- ===== src/Http/Tests.antt =====
-- The server and the client of lab7 at concrete requests.
use sys_op.Prelude.{
  ℕ, ◌≡◌, refl, List, [], ◌∷◌, ◌++◌, true, false, if◌then◌else◌, ltb, codes, some, length, arith,
  ◌<◌, ◌^◌,
}
use sys_op.Prelude.Int.{ℤ, pos, negsuc, ◌+ℤ◌}
use sys_op.Http.Decimal.{
  Bytes, IsInt, print_int, read_int, read_signed, read_nat, read_digits, negated,
}
use sys_op.Http.Server.{
  Arithmetic, Startup, Iteration, accept_failed, received, opened, sent, closed, client_fd, headers,
  handle_request, serve, loop, started, main, starts_with, task_value,
}
use sys_op.Http.Client as Client
use sys_op.Http.Reply.{split, read_page, http_counts, client_adds}
use sys_op.Http.Descriptors.{Settled, server_descriptors}
use sys_op.Http.Counter.{Fits, served, requested, value, request_value, or_zero, session_counter}

-- A compiler whose sums stay at the bounds.
clamp : ℤ → ℤ
clamp (pos n) = if ltb n (2 ^ 31) then pos n else pos 0
clamp (negsuc n) = if ltb n (2 ^ 31) then negsuc n else pos 0

clamp_exact : (v : ℤ) → IsInt v → clamp v ≡ v
unfolding clamp
clamp_exact (pos n) h = ground (arith, h)
clamp_exact (negsuc n) h = ground (arith, h)

clamp-IsInt : (v : ℤ) → IsInt (clamp v)
unfolding clamp
clamp-IsInt (pos n) = ground arith
clamp-IsInt (negsuc n) = ground arith

clamped : Arithmetic
clamped = record { wrap = clamp; wrap_exact = clamp_exact; wrap-IsInt = clamp-IsInt }

http_counts_example :
    (reply body : Bytes) × (handle_request clamped (pos 41) (codes "GET / HTTP/1.1")
      ≡ (pos 41 +ℤ pos 1, some reply))
    × (split reply ≡ some (headers ++ print_int (pos (length body)), body))
    × (read_page body ≡ some (pos 41 +ℤ pos 1))
unfolding starts_with ◌+ℤ◌
http_counts_example =
    http_counts clamped (pos 41) (codes "GET / HTTP/1.1") refl (omega arith, omega arith)

client_adds_example :
    (reply : Bytes) × (serve clamped (pos 41) (received (Client.message (print_int (negsuc 2))))
      ≡ (pos 41 +ℤ negsuc 2, opened client_fd ∷ sent client_fd reply ∷ closed client_fd ∷ []))
    × (read_page reply ≡ some (pos 41 +ℤ negsuc 2))
unfolding ◌+ℤ◌
client_adds_example =
    client_adds clamped (pos 41) (negsuc 2) (omega arith, omega arith) (omega arith, omega arith)

abbrev ready : Startup
ready = record {
  sigaction_ok = true;
  socket_ok = true;
  setsockopt_ok = true;
  bind_ok = true;
  listen_ok = true;
  interrupted_early = false;
}

-- A page, a ZADANIE message, SIGINT in accept, and a page that comes too late.
abbrev session : List Iteration
session =
    record { outcome = received (codes "GET /"); interrupted = false }
    ∷ record { outcome = received (codes "ZADANIE 10"); interrupted = false }
    ∷ record { outcome = accept_failed; interrupted = true }
    ∷ record { outcome = received (codes "GET /"); interrupted = false }
    ∷ []

server_descriptors_example : Settled clamped (main clamped ready session)
server_descriptors_example = server_descriptors clamped ready session

abbrev network : Client.Network
network = record {
  socket_ok = true;
  is_address = λ _. true;
  connect_ok = λ _ _. true;
  send_ok = λ _. true;
  response = λ _. Client.text (codes "51");
}

abbrev argv : List Bytes
argv = codes "client" ∷ codes "127.0.0.1" ∷ codes "9000" ∷ codes "10" ∷ []

session-Fits : Fits (pos 0) (served true session)
unfolding Fits served value request_value or_zero task_value starts_with read_int read_signed
    read_nat read_digits negated ◌+ℤ◌
session-Fits =
    let in_range : (n : ℕ) → n < 2 ^ 31 → IsInt (pos n) = λ n h. (h, omega arith) in
    (
      in_range 1 (omega arith),
      in_range 1 (omega arith),
      (
        in_range 10 (omega arith),
        in_range 11 (omega arith),
        (in_range 0 (omega arith), in_range 11 (omega arith), tt),
      ),
    )

session_counter_example :
    (loop clamped (started ready) session).request_counter ≡ requested (served true session)
session_counter_example = session_counter clamped ready session session-Fits
