-- ===== src/Http/Counter.antt =====
-- The counter of the lab7 server over a whole session, and its end on SIGINT.
use sys_op.Prelude.{
  ◌≡◌, sym, ap, ◌∙◌, subst, ◌&&◌, Bool, true, false, not, ◌||◌, if◌then◌else◌, List, [], ◌∷◌, ◌++◌,
  Option, none, some, take, codes, arith,
}
use sys_op.Prelude.Int.{ℤ, pos, ◌+ℤ◌, +ℤ_assoc}
use sys_op.Http.Decimal.{Bytes, IsInt}
use sys_op.Http.Server.{
  Arithmetic, starts_with, is_http, add_task, task_value, handle_request, Outcome, accept_failed,
  recv_failed, disconnected, received, Iteration, Server, serve, iterate, loop, Startup, started,
  Call, closed, server_fd, exited, shut_down, main,
}

unfoldable pub or_zero : Option ℤ → ℤ
or_zero none = pos 0
or_zero (some v) = v

-- What a request adds: one for a page, the number of a ZADANIE message.
unfoldable pub request_value : Bytes → ℤ
request_value rx =
    if is_http rx
    then pos 1
    else if starts_with (codes "ZADANIE") rx
    then or_zero (task_value rx)
    else pos 0

unfoldable pub value : Outcome → ℤ
value (received text) = request_value (take 1023 text)
value o = pos 0

-- The iterations that take place: none after the first with SIGINT.
unfoldable pub served : Bool → List Iteration → List Iteration
served running [] = []
served running (e ∷ es) =
    let rest = served (if e.interrupted then false else running) es in
    if running then e ∷ rest else []

unfoldable pub requested : List Iteration → ℤ
requested [] = pos 0
requested (e ∷ es) = value e.outcome +ℤ requested es

-- No sum leaves the range of `int`.
unfoldable pub Fits : ℤ → List Iteration → Type 0
Fits n [] = Unit
Fits n (e ∷ es) =
    IsInt (value e.outcome) × IsInt (n +ℤ value e.outcome) × Fits (n +ℤ value e.outcome) es

module _ (m : Arithmetic) where
  add_zero : (n : ℤ) → n +ℤ pos 0 ≡ n
  unfolding ◌+ℤ◌
  add_zero n = ground arith

  zero_add : (n : ℤ) → pos 0 +ℤ n ≡ n
  unfolding ◌+ℤ◌
  zero_add n = ground arith

  add_task-or_zero :
      (n : ℤ) (o : Option ℤ)
      → IsInt (or_zero o)
      → IsInt (n +ℤ or_zero o)
      → add_task m n o ≡ n +ℤ or_zero o
  unfolding add_task or_zero
  add_task-or_zero n none h k = sym (add_zero n)
  add_task-or_zero n (some v) h k =
      ap (λ w. m.wrap (n +ℤ w)) (m.wrap_exact v h) ∙ m.wrap_exact (n +ℤ v) k

  choice :
      (n : ℤ) (b c : Bool) (o : Option ℤ) (r₁ r₂ r₃ : Option Bytes)
      → IsInt (if b then pos 1 else if c then or_zero o else pos 0)
      → IsInt (n +ℤ (if b then pos 1 else if c then or_zero o else pos 0))
      → (if◌then◌else◌ {A = ℤ × Option Bytes} b
          (m.wrap (n +ℤ pos 1), r₁)
          (if c then (add_task m n o, r₂) else (n, r₃))).0
        ≡ n +ℤ (if b then pos 1 else if c then or_zero o else pos 0)
  choice n true c o _ _ _ h k = m.wrap_exact (n +ℤ pos 1) k
  choice n false true o _ _ _ h k = add_task-or_zero n o h k
  choice n false false o _ _ _ h k = sym (add_zero n)

  handle_request-value :
      (n : ℤ) (rx : Bytes)
      → IsInt (request_value rx)
      → IsInt (n +ℤ request_value rx)
      → (handle_request m n rx).0 ≡ n +ℤ request_value rx
  unfolding handle_request request_value
  handle_request-value n rx =
      choice n (is_http rx) (starts_with (codes "ZADANIE") rx) (task_value rx) _ _ _

  serve-value :
      (n : ℤ) (o : Outcome)
      → IsInt (value o)
      → IsInt (n +ℤ value o)
      → (serve m n o).0 ≡ n +ℤ value o
  unfolding serve value
  serve-value n accept_failed h k = sym (add_zero n)
  serve-value n recv_failed h k = sym (add_zero n)
  serve-value n disconnected h k = sym (add_zero n)
  serve-value n (received text) h k = handle_request-value n (take 1023 text) h k

  next-requested :
      (b : Bool) (s t : Server) (e : Iteration) (es : List Iteration)
      → Fits s.request_counter (if b then e ∷ es else [])
      → (Fits (s.request_counter +ℤ value e.outcome) es
          → IsInt (value e.outcome)
          → IsInt (s.request_counter +ℤ value e.outcome)
          → t.request_counter ≡ s.request_counter +ℤ value e.outcome +ℤ requested es)
      → (if b then t else s).request_counter
        ≡ s.request_counter +ℤ requested (if b then e ∷ es else [])
  unfolding Fits requested
  next-requested true s t e es (h, k, fits) next =
      next fits h k ∙ +ℤ_assoc s.request_counter (value e.outcome) (requested es)
  next-requested false s t e es h next = sym (add_zero s.request_counter)

  loop-requested :
      (s : Server) (es : List Iteration)
      → Fits s.request_counter (served s.keep_running es)
      → (loop m s es).request_counter ≡ s.request_counter +ℤ requested (served s.keep_running es)
  unfolding loop iterate requested served Fits
  loop-requested s [] h = sym (add_zero s.request_counter)
  loop-requested s (e ∷ es) h =
      next-requested s.keep_running s (loop m (iterate m s e) es) e
        (served (if e.interrupted then false else s.keep_running) es) h
        (λ fits v w.
          let counted = serve-value s.request_counter e.outcome v w in
          let rest = served (if e.interrupted then false else s.keep_running) es in
          loop-requested (iterate m s e) es (subst (λ n. Fits n rest) (sym counted) fits)
          ∙ ap (λ n. n +ℤ requested rest) counted)

-- As long as no sum leaves the range of `int`, the counter after a session is the sum of what its
-- requests ask for, one for each page and the number of each ZADANIE message, up to the iteration
-- with the first SIGINT and with it.
pub session_counter :
    (m : Arithmetic) (os : Startup) (es : List Iteration)
    → Fits (pos 0) (served (not os.interrupted_early) es)
    → (loop m (started os) es).request_counter ≡ requested (served (not os.interrupted_early) es)
session_counter m os es h =
    loop-requested m (started os) es h
    ∙ zero_add m (requested (served (not os.interrupted_early) es))

abbrev some_interrupt : List Iteration → Bool
some_interrupt [] = false
some_interrupt (e ∷ es) = e.interrupted || some_interrupt es

stops :
    (m : Arithmetic) (s : Server) (es : List Iteration)
    → (not s.keep_running || some_interrupt es) ≡ true
    → (loop m s es).keep_running ≡ false
unfolding loop iterate
stops m s [] h = ground arith
stops m s (e ∷ es) h = ground (arith, stops m (iterate m s e) es)

-- A server whose start succeeds and that gets a SIGINT, before or in some iteration, exits with the
-- status 0.
pub exits_on_interrupt :
    (m : Arithmetic) (os : Startup) (es : List Iteration)
    → (os.sigaction_ok && os.socket_ok && os.setsockopt_ok && os.bind_ok && os.listen_ok) ≡ true
    → (os.interrupted_early || some_interrupt es) ≡ true
    → (calls : List Call) × (main m os es ≡ exited 0 calls)
unfolding main shut_down
exits_on_interrupt m os es ok h =
    let stopped = stops m (started os) es (ground (arith, h)) in
    ((loop m (started os) es).calls ++ closed server_fd ∷ [], ground (arith, ok, stopped))
