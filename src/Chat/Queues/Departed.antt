-- ===== src/Chat/Queues/Departed.antt =====
-- What becomes of the server of lab4 when a client has left.
use sys_op.Prelude.{
  ℕ, ◌+◌, ◌≤◌, ◌≡◌, refl, sym, subst, false, ◌==◌, if◌then◌else◌, List, [], ◌∷◌, some, arith,
  get_elem?,
}
use sys_op.Chat.Queues.{max_msg, receiving, Server, Turn, text, server, child, step, run}
use sys_op.Chat.Queues.Delivered.{taken, took, takes, step-Inv, delivered_once}
use sys_op.Chat.Queues.Delivered.ServerCalls.{heard, Inv, InvAt}

took_away : (k before gone : ℕ) (t : Turn) (s : Server) → Inv k before false gone s → took k t s ≡ 0
took_away k before gone (text id) s inv = refl
took_away k before gone server s inv = refl
took_away k before gone (child j) s inv =
    subst (λ o. (if j == k then takes o else 0) ≡ 0) (sym inv.at_k) (ground arith)

taken_away :
    (k before gone : ℕ) (ts : List Turn) (s : Server) → Inv k before false gone s → taken k ts s ≡ 0
unfolding taken
taken_away k before gone [] s inv = refl
taken_away k before gone (t ∷ ts) s inv = omega (
  arith,
  took_away k before gone t s inv,
  taken_away k before (gone + took k t s) ts (step t s) (step-Inv k before false gone t s inv),
)

-- When client `k` has left with `before` messages in its queue, at most 10, while the server waited
-- for a message, then whatever texts come from then on and whatever the other clients read, the
-- server never gets through more than 10 - `before` texts of other clients.
pub departed_client :
    (k before : ℕ) (s : Server) (ts : List Turn)
    → get_elem? s.queues k ≡ some (record { held = before; is_read = false })
    → before ≤ max_msg
    → s.loop ≡ receiving
    → s.handled ≡ []
    → before + heard k (run ts s).handled ≤ max_msg
unfolding heard
departed_client k before s ts left fits waits fresh =
    let inv : Inv k before false 0 s =
      subst (λ l. InvAt k before false l 0 s) (sym waits)
        (record { held = before; at_k = left; counted = rw fresh (omega arith); fits = fits }) in
    let (held, at_k, counted, below) = delivered_once k before false s ts left fits waits fresh in
    omega (arith, taken_away k before 0 ts s inv)
