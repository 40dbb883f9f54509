-- ===== src/Chat/Queues/Delivered.antt =====
-- The messages in the queue of one client of lab4, over any order of the server's and the clients' calls.
pub mod ServerCalls
use sys_op.Prelude.{
  ℕ, zero, suc, ◌+◌, ◌-◌, ◌<◌, ◌≤◌, ◌≡◌, ◌≢◌, refl, sym, ap, ◌∙◌, subst, true, false, if◌then◌else◌,
  ltb, List, [], ◌∷◌, Option, none, some, inl, inr, arith, Bool-cases, ℕ_discrete, get_elem?, set,
  ◌==◌, Bool, get_elem?-set_self, get_elem?-set_ne,
}
use mathlib.Core.Option.{some-injective}
use sys_op.Prelude.Int.{ℤ}
use sys_op.Chat.Server.{is_id}
use sys_op.Chat.Queues.{
  Queue, max_msg, Loop, receiving, sending, Server, mq_send, send_at, receive_at, server_at,
  read_at, Turn, text, server, child, step, run,
}
use sys_op.Chat.Queues.Delivered.ServerCalls.{
  heard, passed, InvAt, Inv, server_at-Inv, receive_at-Inv,
}

-- The message that the child of a client takes from its queue, if it reads it at all.
abbrev pub takes : Option Queue → ℕ
takes none = 0
takes (some q) = if q.is_read then (if ltb 0 q.held then 1 else 0) else 0

-- What client `k` takes in a turn, and in all turns.
abbrev pub took : ℕ → Turn → Server → ℕ
took k (text id) s = 0
took k server s = 0
took k (child j) s = if j == k then takes (get_elem? s.queues k) else 0

unfoldable pub taken : ℕ → List Turn → Server → ℕ
taken k [] s = 0
taken k (t ∷ ts) s = took k t s + taken k ts (step t s)

module _ (k before : ℕ) (reads : Bool) where
  -- Client `k` reads.
  own_read :
      (gone : ℕ) (s : Server)
      → Inv k before reads gone s
      → Inv k before reads
          (gone + takes (get_elem? s.queues k))
          (read_at k (get_elem? s.queues k) s)
  own_read gone s inv =
      subst (λ o. Inv k before reads (gone + takes o) (read_at k o s)) (sym inv.at_k)
        (elim (Bool-cases reads) [
          | inr away ↦ rw away (record {
            held = inv.held;
            at_k =
                subst (λ b. get_elem? s.queues k ≡ some (record { held = inv.held; is_read = b }))
                  away inv.at_k;
            counted = omega (arith, inv.counted);
            fits = inv.fits;
          })
          | inl here ↦ rw here (record {
            held = inv.held - 1;
            at_k =
                get_elem?-set_self s.queues k (record { held = inv.held - 1; is_read = true }) _
                  inv.at_k;
            counted = ground (arith, inv.counted);
            fits = omega (arith, inv.fits);
          })
        ])

  other_read :
      (gone j : ℕ) (o : Option Queue) (s : Server)
      → j ≢ k
      → Inv k before reads gone s
      → Inv k before reads gone (read_at j o s)
  other_read gone j none s ne inv = inv
  other_read gone j (some q) s ne inv = elim (Bool-cases q.is_read) [
    | inr away ↦ rw away inv
    | inl here ↦ rw here (record {
      held = inv.held;
      at_k =
          get_elem?-set_ne s.queues j k (record { held = q.held - 1; is_read = true }) ne
          ∙ inv.at_k;
      counted = inv.counted;
      fits = inv.fits;
    })
  ]

  read_at-Inv :
      (gone j : ℕ) (s : Server)
      → Inv k before reads gone s
      → Inv k before reads (gone + took k (child j) s) (read_at j (get_elem? s.queues j) s)
  read_at-Inv gone j s inv = elim (ℕ_discrete j k) [
    | yes same ↦ let here : (k == k) ≡ true = ground arith in rw (same, here) (own_read gone s inv)
    | no ne ↦
        let there : (j == k) ≡ false = ground (arith, ne) in
        rw there (
          subst (λ n. Inv k before reads n (read_at j (get_elem? s.queues j) s)) (omega arith)
            (other_read gone j (get_elem? s.queues j) s ne inv))
  ]

  pub step-Inv :
      (gone : ℕ) (t : Turn) (s : Server)
      → Inv k before reads gone s
      → Inv k before reads (gone + took k t s) (step t s)
  unfolding step
  step-Inv gone (text id) s inv =
      subst (λ n. Inv k before reads n (receive_at id s.loop s)) (omega arith)
        (receive_at-Inv k before reads gone id s.loop s refl inv)
  step-Inv gone server s inv =
      subst (λ n. Inv k before reads n (server_at s.loop s)) (omega arith)
        (server_at-Inv k before reads gone s.loop s refl inv)
  step-Inv gone (child j) s inv = read_at-Inv gone j s inv

  pub run-Inv :
      (gone : ℕ) (ts : List Turn) (s : Server)
      → Inv k before reads gone s
      → Inv k before reads (gone + taken k ts s) (run ts s)
  unfolding run taken
  run-Inv gone [] s inv = subst (λ n. Inv k before reads n s) (omega arith) inv
  run-Inv gone (t ∷ ts) s inv =
      subst (λ n. Inv k before reads n (run ts (step t s))) (omega arith)
        (run-Inv (gone + took k t s) ts (step t s) (step-Inv gone t s inv))

-- When the queue of client `k` holds at most 10 messages while the server waits for a text, then in
-- whatever order texts come, the server makes its calls and clients read: what the client has taken
-- and what its queue holds is what the queue held at first and one message for each text of another
-- client that the server is done with, and for the one in its loop once client `k` is past; and the
-- queue never holds more than 10.
pub delivered_once :
    (k before : ℕ) (reads : Bool) (s : Server) (ts : List Turn)
    → get_elem? s.queues k ≡ some (record { held = before; is_read = reads })
    → before ≤ max_msg
    → s.loop ≡ receiving
    → s.handled ≡ []
    → (held : ℕ) × (get_elem? (run ts s).queues k ≡ some (record { held = held; is_read = reads }))
      × (held + taken k ts s ≡ before + heard k (run ts s).handled + passed k (run ts s).loop)
      × (held ≤ max_msg)
unfolding heard
delivered_once k before reads s ts at_k fits waits fresh =
    let inv : Inv k before reads 0 s =
      subst (λ l. InvAt k before reads l 0 s) (sym waits)
        (record { held = before; at_k = at_k; counted = rw fresh (omega arith); fits = fits }) in
    let after = run-Inv k before reads 0 ts s inv in
    (after.held, after.at_k, omega (arith, after.counted), after.fits)
