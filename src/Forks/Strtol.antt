-- ===== src/Forks/Strtol.antt =====
-- The numbers of lab1's command lines: `strtol(text, &endptr, 10)` and the test behind it.
use sys_op.Prelude.{
  ℕ, zero, suc, ◌+◌, ◌-◌, ◌*◌, ◌/◌, ◌%◌, ◌^◌, ◌<◌, ◌≤◌, ◌≡◌, ◌∙◌, ap, sym, Bool, true, false, ◌==◌,
  ltb, if◌then◌else◌, [], ◌∷◌, Option, none, some, arith, Bool-cases, inl, inr,
}
use sys_op.Prelude.Int.{ℤ, pos, negsuc, pos_part}
use sys_op.Http.Decimal.{Bytes, is_digit, is_space, digits, digits-cons, print_nat}

-- The number of the digits from here on, behind the value `n` of those before, and the rest.
unfoldable pub take_digits : ℕ → Bytes → ℕ × Bytes
take_digits n [] = (n, [])
take_digits n (c ∷ s) =
    let more = take_digits (n * 10 + (c - b'0')) s in if is_digit c then more else (n, c ∷ s)

-- LONG_MAX and LONG_MIN stand for what is out of the range of a 64-bit `long`.
abbrev pub to_long : Bool → ℕ → ℤ
to_long false n = pos (if ltb n (2 ^ 63) then n else 2 ^ 63 - 1)
to_long true zero = pos 0
to_long true (suc n) = negsuc (if ltb n (2 ^ 63) then n else 2 ^ 63 - 1)

-- `none`: no conversion, the value is 0 and `endptr` is the text itself.
abbrev pub conversion : Bool → Bytes → Option (ℤ × Bytes)
conversion minus [] = none
conversion minus (c ∷ s) =
    if is_digit c
    then some (to_long minus (take_digits 0 (c ∷ s)).0, (take_digits 0 (c ∷ s)).1)
    else none

unfoldable pub strtol : Bytes → Option (ℤ × Bytes)
strtol [] = none
strtol (c ∷ s) =
    let more = strtol s in
    if is_space c
    then more
    else if c == b'-'
    then conversion true s
    else if c == b'+'
    then conversion false s
    else conversion false (c ∷ s)

-- The rounds of `for (int i = 0; i < N; ++i)`, for an N in the range of `int`.
abbrev pub rounds : Option (ℤ × Bytes) → ℕ
rounds none = 0
rounds (some (v, rest)) = pos_part v

-- endptr == text || *endptr != '\0', for a text without a null byte.
abbrev pub is_invalid : Option (ℤ × Bytes) → Bool
is_invalid none = true
is_invalid (some (v, [])) = false
is_invalid (some (v, c ∷ rest)) = true

take_digits-digits :
    (f n : ℕ) (out : Bytes) → n < f → take_digits 0 (digits f n out) ≡ take_digits n out
unfolding digits take_digits
take_digits-digits zero n out h = absurd (omega arith)
take_digits-digits (suc f) n out h = elim (Bool-cases (n / 10 == 0)) [
  | inl small ↦ rw small (ground arith)
  | inr large ↦ ground (arith, large, take_digits-digits f (n / 10) ((b'0' + n % 10) ∷ out))
]

unsigned :
    (c : ℕ) (s : Bytes) (n : ℕ)
    → b'0' ≤ c
    → c ≤ b'9'
    → n < 2 ^ 63
    → take_digits 0 (c ∷ s) ≡ (n, [])
    → strtol (c ∷ s) ≡ some (pos n, [])
unfolding strtol
unsigned c s n low high lt value = rw value (ground arith)

-- A printed number of the range of `long` is read whole.
pub strtol-print_nat : (n : ℕ) → n < 2 ^ 63 → strtol (print_nat n) ≡ some (pos n, [])
unfolding print_nat take_digits
strtol-print_nat n lt =
    let (c, s, e, low, high) = digits-cons (suc n) n [] (omega arith) in
    let value = sym (ap (take_digits 0) e) ∙ take_digits-digits (suc n) n [] (omega arith) in
    ap strtol e ∙ unsigned c s n low high lt value
