-- ===== src/Http/Reply.antt =====
-- What clients read in the replies of the lab7 server.
use sys_op.Prelude.{
  ℕ, ◌≤◌, ◌≡◌, refl, ap, ◌∙◌, true, false, if◌then◌else◌, [], ◌∷◌, ◌++◌, Option, none, some, All,
  length, length-append, take, take_all, drop, codes, arith,
}
use sys_op.Prelude.Int.{ℤ, pos, ◌+ℤ◌}
use sys_op.Http.Decimal.{
  Bytes, print_int, read_int, IsInt, length-print_int, print_int-All, read_int-print_int,
  read_int_space,
}
use sys_op.Http.Server.{
  Arithmetic, starts_with, page, headers, http_reply, is_http, add_task, task_value, handle_request,
  serve, received, opened, sent, closed, client_fd,
}
use sys_op.Http.Client.{message}

-- The number behind "Liczba pobrań strony: ".
pub read_page : Bytes → Option ℤ
read_page text = read_int (drop 23 text)

abbrev blank_line : Bytes
blank_line = 13 ∷ 10 ∷ 13 ∷ 10 ∷ []

abbrev behind : ℕ → Option (Bytes × Bytes) → Option (Bytes × Bytes)
behind c none = none
behind c (some (head, body)) = some (c ∷ head, body)

-- The head and the body of an HTTP message, which the first blank line parts.
pub split : Bytes → Option (Bytes × Bytes)
split [] = none
split (c ∷ s) =
    let rest = split s in
    if starts_with blank_line (c ∷ s) then some ([], drop 4 (c ∷ s)) else behind c rest

no_blank_line : (c : ℕ) (s : Bytes) → b'-' ≤ c → starts_with blank_line (c ∷ s) ≡ false
unfolding starts_with
no_blank_line c s h = ground arith

split-number :
    (number body : Bytes)
    → All (λ c. b'-' ≤ c) number
    → split (number ++ (blank_line ++ body)) ≡ some (number, body)
unfolding split starts_with
split-number [] body h = refl
split-number (c ∷ number) body (hc, h) =
    rw (no_blank_line c (number ++ (blank_line ++ body)) hc, split-number number body h) refl

split-headers :
    (s head body : Bytes)
    → split s ≡ some (head, body)
    → split (headers ++ s) ≡ some (headers ++ head, body)
unfolding split starts_with headers
split-headers s head body e = rw e refl

read_page-page : (v : ℤ) → read_page (page v) ≡ some v
unfolding read_page page
read_page-page v = read_int-print_int v

length-page : (v : ℤ) → IsInt v → length (page v) ≤ 40
unfolding page
length-page v h = omega (arith, length-print_int v h)

length-headers : length headers ≡ 147
unfolding headers
length-headers = refl

-- No text of the server is cut.
http_reply_whole :
    (v : ℤ)
    → IsInt v
    → http_reply v ≡ headers ++ (print_int (pos (length (page v))) ++ (blank_line ++ page v))
unfolding http_reply
http_reply_whole v h = rw (take_all 1023 (page v) (omega (arith, length-page v h))) (
    take_all 2047 (headers ++ (number ++ (blank_line ++ page v))) (
      omega (
        arith,
        length-headers,
        length-page v h,
        length-append headers (number ++ (blank_line ++ page v)),
        length-append number (blank_line ++ page v),
        length-print_int (pos (length (page v))) (omega (arith, length-page v h), omega arith),
      )))
  where
    number : Bytes
    number = print_int (pos (length (page v)))

-- A GET or POST request that keeps the counter in range counts one, and the reply is a whole HTTP
-- message: its blank line parts the headers, whose Content-Length is the length of the body, from
-- the body, in which a client reads the new counter.
pub http_counts :
    (m : Arithmetic) (n : ℤ) (rx : Bytes)
    → is_http rx ≡ true
    → IsInt (n +ℤ pos 1)
    → (reply body : Bytes) × (handle_request m n rx ≡ (n +ℤ pos 1, some reply))
      × (split reply ≡ some (headers ++ print_int (pos (length body)), body))
      × (read_page body ≡ some (n +ℤ pos 1))
unfolding handle_request
http_counts m n rx http range =
    let w = n +ℤ pos 1 in
    (
      http_reply w,
      page w,
      rw (http, m.wrap_exact w range) refl,
      ap split (http_reply_whole w range)
          ∙ split-headers _ _ _ (
              split-number (print_int (pos (length (page w)))) (page w)
                (print_int-All (pos (length (page w))))),
      read_page-page w,
    )

received_message :
    (v : ℤ) → IsInt v → take 1023 (message (print_int v)) ≡ codes "ZADANIE " ++ print_int v
unfolding message
received_message v h =
    let fits : length (codes "ZADANIE " ++ print_int v) ≤ 1023 =
      omega (arith, length-print_int v h) in
    ap (take 1023) (take_all 1023 (codes "ZADANIE " ++ print_int v) fits)
    ∙ take_all 1023 (codes "ZADANIE " ++ print_int v) fits

add_task_exact :
    (m : Arithmetic) (n v : ℤ) → IsInt v → IsInt (n +ℤ v) → add_task m n (some v) ≡ n +ℤ v
unfolding add_task
add_task_exact m n v hv hw =
    ap (λ w. m.wrap (n +ℤ w)) (m.wrap_exact v hv) ∙ m.wrap_exact (n +ℤ v) hw

-- When the client's number `v` and the sum with the counter `n` are in the range of `int`, the
-- server that receives the client's message adds `v` to the counter, answers once, closes the
-- connection, and the client reads the sum in the answer.
pub client_adds :
    (m : Arithmetic) (n v : ℤ)
    → IsInt v
    → IsInt (n +ℤ v)
    → (reply : Bytes) × (serve m n (received (message (print_int v)))
        ≡ (n +ℤ v, opened client_fd ∷ sent client_fd reply ∷ closed client_fd ∷ []))
      × (read_page reply ≡ some (n +ℤ v))
unfolding serve handle_request starts_with task_value
client_adds m n v hv hw =
    let uncut = take_all 2047 (page (n +ℤ v)) (omega (arith, length-page (n +ℤ v) hw)) in
    (
      page (n +ℤ v),
      rw
          (
            received_message v hv,
            read_int_space (print_int v),
            read_int-print_int v,
            add_task_exact m n v hv hw,
          )
          (ap (λ t. (n +ℤ v, opened client_fd ∷ sent client_fd t ∷ closed client_fd ∷ [])) uncut),
      read_page-page (n +ℤ v),
    )
