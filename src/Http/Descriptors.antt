-- ===== src/Http/Descriptors.antt =====
-- The descriptors of lab7's server and client: each is closed once, and not used afterwards.
use sys_op.Prelude.{
  ◌≡◌, refl, ap, ◌∙◌, Bool, true, false, not, ◌||◌, if◌then◌else◌, List, [], ◌∷◌, ◌++◌, Option,
  none, some, take, if_elim,
}
use sys_op.Prelude.Int.{ℤ}
use sys_op.Http.Decimal.{Bytes}
use sys_op.Http.Server.{
  Arithmetic, Fd, server_fd, client_fd, socket_fd, Call, opened, sent, closed, handle_request,
  Outcome, accept_failed, recv_failed, disconnected, received, Iteration, Server, serve, iterate,
  loop, Startup, Result, exited, waiting, shut_down, reply_calls, started,
}
use sys_op.Http.Server as Server
use sys_op.Http.Client as Client

-- Is this the descriptor opened last?
is_top : Fd → List Fd → Bool
is_top server_fd (server_fd ∷ fds) = true
is_top client_fd (client_fd ∷ fds) = true
is_top socket_fd (socket_fd ∷ fds) = true
is_top fd fds = false

pop_top : List Fd → Option (List Fd)
pop_top [] = none
pop_top (fd ∷ fds) = some fds

apply : Call → Option (List Fd) → Option (List Fd)
apply c none = none
apply (opened fd) (some fds) = some (fd ∷ fds)
apply (sent fd bytes) (some fds) = if is_top fd fds then some fds else none
apply (closed fd) (some fds) = if is_top fd fds then pop_top fds else none

-- The open descriptors after some calls, the last opened first; `none`: a call was on another
-- descriptor than the last opened.
pub follow : Option (List Fd) → List Call → Option (List Fd)
follow fds [] = fds
follow fds (c ∷ cs) = follow (apply c fds) cs

follow-append :
    (fds : Option (List Fd)) (xs ys : List Call) → follow fds (xs ++ ys) ≡ follow (follow fds xs) ys
unfolding follow
follow-append fds [] ys = refl
follow-append fds (c ∷ xs) ys = follow-append (apply c fds) xs ys

-- Whatever is received, the calls of an iteration leave the listening socket alone open.
reply_calls_balanced :
    (reply : Option Bytes)
    → follow (some (server_fd ∷ [])) (opened client_fd ∷ reply_calls reply ++ closed client_fd ∷ [])
      ≡ some (server_fd ∷ [])
unfolding follow apply is_top pop_top
reply_calls_balanced none = refl
reply_calls_balanced (some text) = refl

module _ (m : Arithmetic) where
  serve_balanced :
      (n : ℤ) (o : Outcome) → follow (some (server_fd ∷ [])) (serve m n o).1 ≡ some (server_fd ∷ [])
  unfolding follow apply is_top pop_top serve
  serve_balanced n accept_failed = refl
  serve_balanced n recv_failed = refl
  serve_balanced n disconnected = refl
  serve_balanced n (received text) = reply_calls_balanced (handle_request m n (take 1023 text)).1

  abbrev Listening : Server → Type 0
  Listening s = follow (some []) s.calls ≡ some (server_fd ∷ [])

  loop-Listening : (s : Server) (es : List Iteration) → Listening s → Listening (loop m s es)
  unfolding loop iterate
  loop-Listening s [] h = h
  loop-Listening s (e ∷ es) h =
      let calls = (serve m s.request_counter e.outcome).1 in
      let next =
        follow-append (some []) s.calls calls
        ∙ (ap (λ o. follow o calls) h ∙ serve_balanced s.request_counter e.outcome) in
      if_elim Listening s.keep_running (loop-Listening (iterate m s e) es next) h

  -- An exit leaves nothing open, and a server that waits has its listening socket open.
  abbrev pub Settled : Result → Type 0
  Settled (exited status calls) = follow (some []) calls ≡ some []
  Settled (waiting s) = Listening s

  shut_down-Settled : (s : Server) → Listening s → Settled (shut_down s)
  unfolding shut_down follow apply is_top pop_top
  shut_down-Settled s h = if_elim Settled s.keep_running h (
      follow-append (some []) s.calls (closed server_fd ∷ [])
      ∙ ap (λ o. follow o (closed server_fd ∷ [])) h)

-- For each outcome of the start, of accept, recv and of the requests, and for SIGINT at any place,
-- the server closes and uses the descriptor that it opened last only, an exit leaves none open, and
-- while it waits for a connection only the listening socket is open.
pub server_descriptors :
    (m : Arithmetic) (os : Startup) (es : List Iteration) → Settled m (Server.main m os es)
unfolding Server.main follow apply is_top pop_top
server_descriptors m os es =
    if_elim (Settled m) (not os.sigaction_ok || not os.socket_ok) {x = exited 1 []} refl (
      if_elim (Settled m) (not os.setsockopt_ok || not os.bind_ok || not os.listen_ok)
        {x = exited 1 (opened server_fd ∷ closed server_fd ∷ [])} refl
        (shut_down-Settled m (loop m (started os) es) (loop-Listening m (started os) es refl)))

abbrev Closes : Client.Exit → Type 0
Closes x = follow (some []) x.calls ≡ some []

receive-Closes : (bytes : Bytes) (r : Client.Response) → Closes (Client.receive bytes r)
unfolding Client.receive follow apply is_top pop_top
receive-Closes bytes Client.failed = refl
receive-Closes bytes Client.empty = refl
receive-Closes bytes (Client.text reply) = refl

-- However its calls come out and whatever its arguments are, the client closes and uses the
-- descriptor that it opened last only, and leaves none open.
pub client_descriptors :
    (net : Client.Network) (argv : List Bytes)
    → follow (some []) (Client.main net argv).calls ≡ some []
unfolding Client.main Client.transfer follow apply is_top pop_top
client_descriptors net (program ∷ address ∷ port ∷ number ∷ []) =
    if_elim Closes (not net.socket_ok) {x = Client.failure []} refl (
      if_elim Closes (not (net.is_address address) || not (net.connect_ok address port))
        {x = Client.failure (opened socket_fd ∷ closed socket_fd ∷ [])} refl
        (if_elim Closes (net.send_ok (Client.message number))
          {y = Client.failure (opened socket_fd ∷ closed socket_fd ∷ [])}
          (receive-Closes (Client.message number) (net.response (Client.message number))) refl))
client_descriptors net [] = refl
client_descriptors net (a ∷ []) = refl
client_descriptors net (a ∷ b ∷ []) = refl
client_descriptors net (a ∷ b ∷ c ∷ []) = refl
client_descriptors net (a ∷ b ∷ c ∷ d ∷ e ∷ more) = refl
