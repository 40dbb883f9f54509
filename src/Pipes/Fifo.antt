-- ===== src/Pipes/Fifo.antt =====
-- lab3/zad2: program1.c asks for an integral and program2.c answers, through two named pipes. The
-- prompts and the progress messages are left out.
use sys_op.Prelude.{
  ℕ, ◌<◌, ◌≡◌, refl, ap, Bool, true, false, not, if◌then◌else◌, List, [], ◌∷◌, ◌++◌, map, All,
  append-nil, Option, none, some,
}
use sys_op.Prelude.Double.{Double}
use sys_op.Pipes.Integrator.{
  rectangular_integration, point, area, IsLast, integration_ends, integration_diverges,
}

pub data Mkfifo : Type 0 where
  made existed refused : Mkfifo  -- `existed`: errno is EEXIST

pub data SetupError : Type 0 where
  sigint_error sigterm_error req_error res_error : SetupError

-- Two calls, the second if the first is in order.
abbrev pub or_then : Option SetupError → Option SetupError → Option SetupError
or_then (some e) next = some e
or_then none next = next

abbrev pub made_or : SetupError → Mkfifo → Option SetupError
made_or e made = none
made_or e existed = none
made_or e refused = some e

-- program2.c up to its loop: the two calls of sigaction, and the two of mkfifo.
unfoldable pub set_up : Bool → Bool → Mkfifo → Mkfifo → Option SetupError
set_up int_ok term_ok req res = or_then (if int_ok then none else some sigint_error) (
    or_then (if term_ok then none else some sigterm_error)
      (or_then (made_or req_error req) (made_or res_error res)))

pub data ShutdownLine : Type 0 where
  req_removed req_not_removed res_removed res_not_removed : ShutdownLine

-- `handle_shutdown`: what it prints, by the outcomes of the two calls of unlink, and its status.
unfoldable pub handle_shutdown : Bool → Bool → List ShutdownLine × ℕ
handle_shutdown req_ok res_ok = (
  (if req_ok then req_removed else req_not_removed)
      ∷ (if res_ok then res_removed else res_not_removed)
      ∷ [],
  0,
)

module _ (fl : Double) where
  open fl use {D, of_int, add, ltb}

  pub record Interval : Type 0 where
    pub start : D
    pub end : D
    pub dx : D

  pub data ClientLine : Type 0 where
    req_not_opened : ClientLine
    req_not_written : ClientLine
    res_not_opened : ClientLine
    res_not_read : ClientLine
    success : D → ClientLine

  pub data Asked : Type 0 where
    sends : Interval → Asked
    quits : ℕ → List ClientLine → Asked

  -- `main` of program1.c up to the closing of FIFO_REQ: the numbers that the three scanf can read,
  -- and whether `open` and `write` succeed.
  unfoldable pub ask : List D → Bool → Bool → Asked
  ask (start ∷ end ∷ dx ∷ more) open_ok write_ok =
      if not open_ok
      then quits 1 (req_not_opened ∷ [])
      else if not write_ok
      then quits 1 (req_not_written ∷ [])
      else sends (record { start = start; end = end; dx = dx })
  ask few open_ok write_ok = quits 1 []

  abbrev pub answer_line : Option D → ClientLine
  answer_line none = res_not_read
  answer_line (some wynik) = success wynik

  -- The rest of it, by what `read` brings; `none`: it returns 0 or fails.
  unfoldable pub receive : Bool → Option D → ℕ × List ClientLine
  receive false wynik = (1, res_not_opened ∷ [])
  receive true wynik = (0, answer_line wynik ∷ [])

  -- What one round of the loop of program2.c meets: FIFO_REQ does not open, the read is cut short,
  -- or there is a whole request, and FIFO_RES can be opened or not. A client that is gone before it
  -- has read its answer, for which the server would wait in `open`, is not among them.
  pub data Incoming : Type 0 where
    no_open : Incoming
    cut_short : Incoming
    request : Interval → Bool → Incoming

  -- What the server writes to FIFO_RES in a round; `none`: the round never ends.
  abbrev pub reply : Bool → Option D → Option (List D)
  reply open_ok none = none
  reply true (some wynik) = some (wynik ∷ [])
  reply false (some wynik) = some []

  unfoldable pub serve : ℕ → Incoming → Option (List D)
  serve fuel no_open = some []
  serve fuel cut_short = some []
  serve fuel (request req open_ok) =
      reply open_ok (rectangular_integration fl fuel req.start req.end req.dx)

  -- `computing`: the server never comes back to its loop, and the requests behind stay unread.
  pub data Server : Type 0 where
    listening : Server
    computing : Server

  abbrev pub then_serve : Option (List D) → List D × Server → List D × Server
  then_serve none rest = ([], computing)
  then_serve (some out) rest = (out ++ rest.0, rest.1)

  -- The loop, over what its rounds meet in their order: all that it writes to FIFO_RES.
  unfoldable pub serve_all : ℕ → List Incoming → List D × Server
  serve_all fuel [] = ([], listening)
  serve_all fuel (r ∷ rounds) = then_serve (serve fuel r) (serve_all fuel rounds)

  -- One client and the server, when nobody else uses the pipes. A server that computes for ever
  -- leaves the client in its `open`.
  pub data Exchange : Type 0 where
    ended : ℕ → List ClientLine → Exchange
    waiting : Exchange

  abbrev answered : Bool → Option (List D) → Exchange
  answered res_ok none = waiting
  answered res_ok (some []) = waiting
  answered res_ok (some (wynik ∷ more)) =
      ended (receive res_ok (some wynik)).0 (receive res_ok (some wynik)).1

  abbrev served : ℕ → Bool → Asked → Exchange
  served fuel res_ok (quits status lines) = ended status lines
  served fuel res_ok (sends req) = answered res_ok (serve fuel (request req true))

  unfoldable pub exchange : ℕ → List D → Bool → Bool → Bool → Exchange
  exchange fuel numbers req_ok write_ok res_ok = served fuel res_ok (ask numbers req_ok write_ok)

  -- The integration of a request ends within the fuel, with the result beside it.
  pub record HasResult (fuel : ℕ) (req : Interval) (wynik : D) : Type 0 where
    pub ends : rectangular_integration fl fuel req.start req.end req.dx ≡ some wynik

  abbrev pub whole_request : Interval × D → Incoming
  whole_request c = request c.0 true

  abbrev pub result_of : Interval × D → D
  result_of c = c.1

  serve_all-results :
      (fuel : ℕ) (cs : List (Interval × D)) (rest : List Incoming)
      → All (λ c. HasResult fuel c.0 c.1) cs
      → serve_all fuel (map whole_request cs ++ rest)
        ≡ (map result_of cs ++ (serve_all fuel rest).0, (serve_all fuel rest).1)
  unfolding serve_all serve
  serve_all-results fuel [] rest h = refl
  serve_all-results fuel (c ∷ cs) rest h = rw (h.0.ends, serve_all-results fuel cs rest h.1) refl

  -- The server answers the requests in their order, and a request all of whose points lie below its
  -- end (one whose step is 0, say) is the last that it takes: nothing behind it is answered,
  -- whatever time there is.
  pub server_starves :
      (fuel : ℕ) (cs : List (Interval × D)) (bad : Interval) (open_ok : Bool) (rest : List Incoming)
      → All (λ c. HasResult fuel c.0 c.1) cs
      → ((i : ℕ) → ltb (point fl bad.start bad.dx i) bad.end ≡ true)
      → serve_all fuel (map whole_request cs ++ (request bad open_ok ∷ rest))
        ≡ (map result_of cs, computing)
  unfolding serve_all serve
  server_starves fuel cs bad open_ok rest h below =
      rw
        (
          serve_all-results fuel cs (request bad open_ok ∷ rest) h,
          integration_diverges fl fuel bad.start bad.end bad.dx below,
        )
        (ap (λ l. (l, computing)) (append-nil (map result_of cs)))

  -- Program 1, which reads three numbers and whose calls succeed, ends with status 0 and prints the
  -- sum of the rectangles over the points before the first that is not below `end`, if each step of
  -- `dx` from a point below `end` lowers some measure, which is below the fuel at `start`.
  pub exchange-area :
      (measure : D → ℕ) (fuel : ℕ) (start end dx : D) (more : List D)
      → ((x : D) → ltb x end ≡ true → measure (add x dx) < measure x)
      → measure start < fuel
      → (n : ℕ) × IsLast fl start end dx n
        × (exchange fuel (start ∷ end ∷ dx ∷ more) true true true
            ≡ ended 0 (success (area fl start dx n (of_int 0)) ∷ []))
  unfolding exchange ask serve receive
  exchange-area measure fuel start end dx more falls lt =
      let (n, last, sum) = integration_ends fl measure fuel start end dx falls lt in
      (n, last, rw sum refl)
