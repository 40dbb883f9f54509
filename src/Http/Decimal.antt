-- ===== src/Http/Decimal.antt =====
-- The decimal numbers of lab7: "%d" as `snprintf` prints it and as `sscanf` reads it.
use sys_op.Prelude.{
  ℕ, zero, suc, ◌+◌, ◌-◌, ◌*◌, ◌/◌, ◌%◌, ◌^◌, ◌≤◌, ◌<◌, ◌==◌, ◌≡◌, refl, leb, List, [], ◌∷◌, Bool,
  ◌&&◌, ◌||◌, if◌then◌else◌, Option, none, some, length, arith, Bool-cases, inl, inr, sym, ap, ◌∙◌,
  All,
}
use mathlib.Core.Option
use sys_op.Prelude.Int.{ℤ, pos, negsuc, pos_part, neg_part}

abbrev pub Bytes : Type 0
Bytes = List ℕ

-- The digits of `n` in front of `out`; one unit of fuel for each digit.
unfoldable pub digits : ℕ → ℕ → Bytes → Bytes
digits zero n out = out
digits (suc f) n out =
    let more = digits f (n / 10) ((b'0' + n % 10) ∷ out) in
    if n / 10 == 0 then (b'0' + n % 10) ∷ out else more

unfoldable pub print_nat : ℕ → Bytes
print_nat n = digits (suc n) n []

unfoldable pub print_int : ℤ → Bytes
print_int (pos n) = print_nat n
print_int (negsuc n) = b'-' ∷ print_nat (suc n)

abbrev pub is_digit : ℕ → Bool
is_digit c = leb b'0' c && leb c b'9'

-- isspace
abbrev pub is_space : ℕ → Bool
is_space c = c == b' ' || (leb 9 c && leb c 13)

-- The digits from here on, behind the value `n` of those before.
unfoldable pub read_digits : ℕ → Bytes → ℕ
read_digits n [] = n
read_digits n (c ∷ s) =
    let more = read_digits (n * 10 + (c - b'0')) s in if is_digit c then more else n

-- A number has a digit at least.
unfoldable pub read_nat : Bytes → Option ℕ
read_nat [] = none
read_nat (c ∷ s) = if is_digit c then some (read_digits 0 (c ∷ s)) else none

unfoldable pub negated : ℕ → ℤ
negated zero = pos zero
negated (suc n) = negsuc n

-- "%d" behind the white space: the sign and the digits. `none`: no conversion.
unfoldable pub read_signed : Bytes → Option ℤ
read_signed [] = none
read_signed (c ∷ s) =
    if c == b'-'
    then Option.map negated (read_nat s)
    else if c == b'+'
    then Option.map pos (read_nat s)
    else Option.map pos (read_nat (c ∷ s))

unfoldable pub read_int : Bytes → Option ℤ
read_int [] = none
read_int (c ∷ s) = let more = read_int s in if is_space c then more else read_signed (c ∷ s)

pub read_digits-digits :
    (f n : ℕ) (out : Bytes) → n < f → read_digits 0 (digits f n out) ≡ read_digits n out
unfolding digits read_digits
read_digits-digits zero n out h = absurd (omega arith)
read_digits-digits (suc f) n out h = elim (Bool-cases (n / 10 == 0)) [
  | inl small ↦ rw small (ground arith)
  | inr large ↦ ground (arith, large, read_digits-digits f (n / 10) ((b'0' + n % 10) ∷ out))
]

-- What is printed begins with a digit.
pub digits-cons :
    (f n : ℕ) (out : Bytes)
    → n < f
    → (c : ℕ) × (s : Bytes) × (digits f n out ≡ c ∷ s) × (b'0' ≤ c) × (c ≤ b'9')
unfolding digits
digits-cons zero n out h = absurd (omega arith)
digits-cons (suc f) n out h = elim (Bool-cases (n / 10 == 0)) [
  | inl small ↦ rw small (b'0' + n % 10, out, refl, omega arith, omega arith)
  | inr large ↦ rw large (digits-cons f (n / 10) ((b'0' + n % 10) ∷ out) (ground arith))
]

read_nat-print_nat : (n : ℕ) → read_nat (print_nat n) ≡ some n
unfolding read_nat print_nat read_digits
read_nat-print_nat n =
    let (c, s, e, low, high) = digits-cons (suc n) n [] (omega arith) in
    let value = read_digits-digits (suc n) n [] (omega arith) in rw e (ground (arith, e, value))

unsigned :
    (c : ℕ) (s : Bytes) (n : ℕ)
    → b'0' ≤ c
    → c ≤ b'9'
    → read_nat (c ∷ s) ≡ some n
    → read_int (c ∷ s) ≡ some (pos n)
unfolding read_int read_signed
unsigned c s n low high value = rw value (ground arith)

-- Printing an integer with "%d" and reading it with "%d" gives it back.
pub read_int-print_int : (v : ℤ) → read_int (print_int v) ≡ some v
unfolding print_int read_int read_signed negated print_nat
read_int-print_int (pos n) =
    let (c, s, e, low, high) = digits-cons (suc n) n [] (omega arith) in
    let value = sym (ap read_nat e) ∙ read_nat-print_nat n in
    ap read_int e ∙ unsigned c s n low high value
read_int-print_int (negsuc n) = rw (read_nat-print_nat (suc n)) refl

length-digits :
    (k f n : ℕ) (out : Bytes) → n < 10 ^ suc k → length (digits f n out) ≤ suc k + length out
unfolding digits
length-digits k zero n out h = omega arith
length-digits zero (suc f) n out h = ground arith
length-digits (suc k) (suc f) n out h =
    ground (arith, length-digits k f (n / 10) ((b'0' + n % 10) ∷ out) (omega arith))

-- The range of a 32-bit `int`.
abbrev pub IsInt : ℤ → Type 0
IsInt v = (pos_part v < 2 ^ 31) × (neg_part v ≤ 2 ^ 31)

pub length-print_int : (v : ℤ) → IsInt v → length (print_int v) ≤ 11
unfolding print_int print_nat
length-print_int (pos n) (h, _) = omega (arith, length-digits 9 (suc n) n [] (omega arith))
length-print_int (negsuc n) (_, h) =
    omega (arith, length-digits 9 (suc (suc n)) (suc n) [] (omega arith))

-- No byte of a printed number is a carriage return.
digits-All :
    (f n : ℕ) (out : Bytes) → All (λ c. b'-' ≤ c) out → All (λ c. b'-' ≤ c) (digits f n out)
unfolding digits
digits-All zero n out h = h
digits-All (suc f) n out h = elim (Bool-cases (n / 10 == 0)) [
  | inl small ↦ rw small (omega arith, h)
  | inr large ↦ rw large (digits-All f (n / 10) ((b'0' + n % 10) ∷ out) (omega arith, h))
]

pub print_int-All : (v : ℤ) → All (λ c. b'-' ≤ c) (print_int v)
unfolding print_int print_nat
print_int-All (pos n) = digits-All (suc n) n [] tt
print_int-All (negsuc n) = (omega arith, digits-All (suc (suc n)) (suc n) [] tt)

pub read_int_space : (s : Bytes) → read_int (b' ' ∷ s) ≡ read_int s
unfolding read_int
read_int_space s = refl
