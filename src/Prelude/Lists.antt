-- ===== src/Prelude/Lists.antt =====
-- Lists and C arrays measured and indexed by native numbers, under the library's names.
use Prim.Native.Nat.{ℕ, zero, suc, ◌+◌, ◌-◌, ◌*◌, ◌≤◌, ◌<◌}
use Prim.Native.Char.{code}
use Prim.Native.String.{String}
use mathlib.Core.Path.{◌≡◌, refl, ap, subst, ◌∙◌}
use mathlib.Core.Logic.{◌≢◌, ◌⊎◌, inl, inr}
use mathlib.Core.List.{List, [], ◌∷◌, ◌++◌}
use mathlib.Core.Option.{Option, none, some, some-injective}
use native.Mathlib.Decide.{dec_lt}
use native.Mathlib.Omega.{arith}

-- The bytes of a literal text, if it is ASCII.
abbrev pub codes : String → List ℕ
codes String.[] = []
codes (String.◌∷◌ c s) = code c ∷ codes s

module _ {ℓ} {A : Type ℓ} where
  abbrev pub length : List A → ℕ
  length [] = 0
  length (x ∷ xs) = suc (length xs)

  abbrev pub get_elem? : List A → ℕ → Option A
  get_elem? [] i = none
  get_elem? (x ∷ xs) zero = some x
  get_elem? (x ∷ xs) (suc i) = get_elem? xs i

  -- A write out of bounds changes nothing.
  abbrev pub set : List A → ℕ → A → List A
  set [] i v = []
  set (x ∷ xs) zero v = v ∷ xs
  set (x ∷ xs) (suc i) v = x ∷ set xs i v

  abbrev pub get_or : List A → ℕ → A → A
  get_or [] i d = d
  get_or (x ∷ xs) zero d = x
  get_or (x ∷ xs) (suc i) d = get_or xs i d

  abbrev pub take : ℕ → List A → List A
  take zero xs = []
  take (suc n) [] = []
  take (suc n) (x ∷ xs) = x ∷ take n xs

  abbrev pub drop : ℕ → List A → List A
  drop zero xs = xs
  drop (suc n) [] = []
  drop (suc n) (x ∷ xs) = drop n xs

  abbrev pub replicate : ℕ → A → List A
  replicate zero a = []
  replicate (suc n) a = a ∷ replicate n a

  pub length-append : (xs ys : List A) → length (xs ++ ys) ≡ length xs + length ys
  length-append [] ys = omega arith
  length-append (x ∷ xs) ys = omega (arith, length-append xs ys)

  pub length-set : (xs : List A) (i : ℕ) (v : A) → length (set xs i v) ≡ length xs
  length-set [] i v = refl
  length-set (x ∷ xs) zero v = refl
  length-set (x ∷ xs) (suc i) v = ap suc (length-set xs i v)

  pub get_or-set_self :
      (xs : List A) (i : ℕ) (v d : A) → i < length xs → get_or (set xs i v) i d ≡ v
  get_or-set_self [] i v d h = absurd (omega arith)
  get_or-set_self (x ∷ xs) zero v d h = refl
  get_or-set_self (x ∷ xs) (suc i) v d h = get_or-set_self xs i v d (omega arith)

  pub get_or-set_ne :
      (xs : List A) {i j : ℕ} (v d : A) → i ≢ j → get_or (set xs i v) j d ≡ get_or xs j d
  get_or-set_ne [] v d h = refl
  get_or-set_ne (x ∷ xs) {i = zero} {j = zero} v d h = absurd (h refl)
  get_or-set_ne (x ∷ xs) {i = zero} {j = suc j} v d h = refl
  get_or-set_ne (x ∷ xs) {i = suc i} {j = zero} v d h = refl
  get_or-set_ne (x ∷ xs) {i = suc i} {j = suc j} v d h = get_or-set_ne xs v d (λ e. h (ap suc e))

module _ {ℓ} {A : Type ℓ} where
  pub get_elem?-set_self :
      (xs : List A) (i : ℕ) (v w : A) → get_elem? xs i ≡ some w → get_elem? (set xs i v) i ≡ some v
  get_elem?-set_self [] i v w h = absurd (ground arith)
  get_elem?-set_self (x ∷ xs) zero v w h = refl
  get_elem?-set_self (x ∷ xs) (suc i) v w h = get_elem?-set_self xs i v w h

  pub get_elem?-set_ne :
      (xs : List A) (i j : ℕ) (v : A) → i ≢ j → get_elem? (set xs i v) j ≡ get_elem? xs j
  get_elem?-set_ne [] i j v h = refl
  get_elem?-set_ne (x ∷ xs) zero zero v h = absurd (h refl)
  get_elem?-set_ne (x ∷ xs) zero (suc j) v h = refl
  get_elem?-set_ne (x ∷ xs) (suc i) zero v h = refl
  get_elem?-set_ne (x ∷ xs) (suc i) (suc j) v h = get_elem?-set_ne xs i j v (λ e. h (ap suc e))

module _ {ℓ} {A : Type ℓ} where
  pub drop-append : (d : ℕ) (xs ys : List A) → d ≤ length xs → drop d (xs ++ ys) ≡ drop d xs ++ ys
  drop-append zero xs ys h = refl
  drop-append (suc d) [] ys h = absurd (omega arith)
  drop-append (suc d) (x ∷ xs) ys h = drop-append d xs ys (omega arith)

  pub length-drop : (n : ℕ) (xs : List A) → length (drop n xs) ≡ length xs - n
  length-drop zero xs = omega arith
  length-drop (suc n) [] = omega arith
  length-drop (suc n) (x ∷ xs) = omega (arith, length-drop n xs)

  pub drop-drop : (m n : ℕ) (xs : List A) → drop m (drop n xs) ≡ drop (n + m) xs
  drop-drop m zero xs = ap (λ k. drop k xs) (omega arith)
  drop-drop zero (suc n) [] = let e : suc n + zero ≡ suc n = omega arith in rw e
  drop-drop (suc m) (suc n) [] = let e : suc n + suc m ≡ suc (n + suc m) = omega arith in rw e
  drop-drop m (suc n) (x ∷ xs) =
      let e : suc n + m ≡ suc (n + m) = omega arith in rw e (drop-drop m n xs)

  pub drop-eq-cons :
      (d : ℕ) (xs ys : List A) (y : A)
      → drop d xs ≡ y ∷ ys
      → (drop (suc d) xs ≡ ys) × (d < length xs)
  drop-eq-cons zero [] ys y e = cc
  drop-eq-cons zero (x ∷ xs) ys y e = (cc, omega arith)
  drop-eq-cons (suc d) [] ys y e = cc
  drop-eq-cons (suc d) (x ∷ xs) ys y e =
      let (rest, lt) = drop-eq-cons d xs ys y e in (rest, omega arith)

  pub drop-eq-nil : (d : ℕ) (xs : List A) → drop d xs ≡ [] → length xs ≤ d
  drop-eq-nil zero [] e = omega arith
  drop-eq-nil zero (x ∷ xs) e = cc
  drop-eq-nil (suc d) [] e = omega arith
  drop-eq-nil (suc d) (x ∷ xs) e = omega (arith, drop-eq-nil d xs e)

  pub drop_past :
      (d : ℕ) (xs ys : List A) → length xs ≤ d → drop d (xs ++ ys) ≡ drop (d - length xs) ys
  drop_past d [] ys h = ap (λ k. drop k ys) (omega arith)
  drop_past zero (x ∷ xs) ys h = absurd (omega arith)
  drop_past (suc d) (x ∷ xs) ys h =
      drop_past d xs ys (omega arith) ∙ ap (λ k. drop k ys) (omega arith)

pub length-replicate {ℓ} : {A : Type ℓ} (n : ℕ) (a : A) → length (replicate n a) ≡ n
length-replicate zero a = refl
length-replicate (suc n) a = ap suc (length-replicate n a)

pub take_all {ℓ} : {A : Type ℓ} (n : ℕ) (xs : List A) → length xs ≤ n → take n xs ≡ xs
take_all zero [] h = refl
take_all zero (x ∷ xs) h = absurd (omega arith)
take_all (suc n) [] h = refl
take_all (suc n) (x ∷ xs) h = ap (λ ys. x ∷ ys) (take_all n xs (omega arith))

module _ {ℓ κ} {A : Type ℓ} (P : A → Type κ) where
  abbrev pub All : List A → Type κ
  All [] = Unit
  All (x ∷ xs) = P x × All xs

  pub All-append : (xs ys : List A) → All xs → All ys → All (xs ++ ys)
  All-append [] ys _ hy = hy
  All-append (x ∷ xs) ys (px, hx) hy = (px, All-append xs ys hx hy)

pub All-set {ℓ κ} :
    {A : Type ℓ} (P : A → Type κ) (xs : List A) (i : ℕ) (v : A)
    → P v
    → All P xs
    → All P (set xs i v)
All-set P [] i v pv h = h
All-set P (x ∷ xs) zero v pv (px, h) = (pv, h)
All-set P (x ∷ xs) (suc i) v pv (px, h) = (px, All-set P xs i v pv h)

pub All-get_elem? {ℓ κ} :
    {A : Type ℓ} (P : A → Type κ) (xs : List A) (i : ℕ) (x : A)
    → get_elem? xs i ≡ some x
    → All P xs
    → P x
All-get_elem? P [] i x e h = absurd (ground arith)
All-get_elem? P (y ∷ xs) zero x e (py, h) = subst P (some-injective y x e) py
All-get_elem? P (y ∷ xs) (suc i) x e (py, h) = All-get_elem? P xs i x e h

pub All-prefix {ℓ κ} : {A : Type ℓ} (P : A → Type κ) (xs ys : List A) → All P (xs ++ ys) → All P xs
All-prefix P [] ys h = tt
All-prefix P (x ∷ xs) ys (px, h) = (px, All-prefix P xs ys h)

pub All-map {ℓ κ μ} :
    {A : Type ℓ} (P : A → Type κ) (Q : A → Type μ)
    → ((a : A) → P a → Q a)
    → (xs : List A) → All P xs
    → All Q xs
All-map P Q f [] h = tt
All-map P Q f (x ∷ xs) (px, h) = (f x px, All-map P Q f xs h)

-- Weighted sums, for counting the processes in a state.
module _ {ℓ} {A : Type ℓ} (w : A → ℕ) where
  pub total : List A → ℕ
  total [] = 0
  total (x ∷ xs) = w x + total xs

  pub total-set :
      (xs : List A) (i : ℕ) (a b : A)
      → get_elem? xs i ≡ some a
      → total (set xs i b) + w a ≡ total xs + w b
  unfolding total
  total-set [] i a b h = absurd (ground arith)
  total-set (x ∷ xs) zero a b h = ground arith
  total-set (x ∷ xs) (suc i) a b h = omega (arith, total-set xs i a b h)

  pub total-get : (xs : List A) (i : ℕ) (a : A) → get_elem? xs i ≡ some a → w a ≤ total xs
  unfolding total
  total-get [] i a h = absurd (ground arith)
  total-get (x ∷ xs) zero a h = ground arith
  total-get (x ∷ xs) (suc i) a h = omega (arith, total-get xs i a h)

  -- Two places that weigh something weigh together at most the whole.
  pub total-get_two :
      (xs : List A) (i j : ℕ) (a b : A)
      → i ≢ j
      → get_elem? xs i ≡ some a
      → get_elem? xs j ≡ some b
      → w a + w b ≤ total xs
  unfolding total
  total-get_two [] i j a b ne h k = absurd (ground arith)
  total-get_two (x ∷ xs) zero zero a b ne h k = absurd (ne refl)
  total-get_two (x ∷ xs) zero (suc j) a b ne h k = ground (arith, total-get xs j b k)
  total-get_two (x ∷ xs) (suc i) zero a b ne h k = ground (arith, total-get xs i a h)
  total-get_two (x ∷ xs) (suc i) (suc j) a b ne h k =
      omega (arith, total-get_two xs i j a b (λ e. ne (ap suc e)) h k)

  pub total_find :
      (xs : List A) → 0 < total xs → (i : ℕ) × (a : A) × (get_elem? xs i ≡ some a) × (0 < w a)
  unfolding total
  total_find [] h = absurd (omega arith)
  total_find (x ∷ xs) h = elim (dec_lt 0 (w x)) [
    | yes here ↦ (0, x, refl, here)
    | no light ↦ let (i, a, at, pos) = total_find xs (omega arith) in (suc i, a, at, pos)
  ]

  pub total-eq-zero : (xs : List A) → All (λ a. w a ≡ 0) xs → total xs ≡ 0
  unfolding total
  total-eq-zero [] h = refl
  total-eq-zero (x ∷ xs) (hx, h) = omega (arith, hx, total-eq-zero xs h)

  pub All-eq_zero : (xs : List A) → total xs ≡ 0 → All (λ a. w a ≡ 0) xs
  unfolding total
  All-eq_zero [] h = tt
  All-eq_zero (x ∷ xs) h = (omega (arith, h), All-eq_zero xs (omega (arith, h)))

  pub total-replicate : (n : ℕ) (a : A) → total (replicate n a) ≡ n * w a
  unfolding total
  total-replicate zero a = omega arith
  total-replicate (suc n) a = ground (arith, total-replicate n a)

  -- A list whose elements weigh nothing or stand in another list at the same place.
  pub total_le :
      (xs ys : List A)
      → ((j : ℕ) (a : A) → get_elem? xs j ≡ some a → (w a ≡ 0) ⊎ (get_elem? ys j ≡ some a))
      → total xs ≤ total ys
  unfolding total
  total_le [] ys h = omega arith
  total_le (x ∷ xs) [] h =
      let rest : total xs ≤ total [] = total_le xs [] (λ j a e. h (suc j) a e) in
      elim (h 0 x refl) [ inl light ↦ omega (arith, rest, light) | inr e ↦ absurd (ground arith) ]
  total_le (x ∷ xs) (y ∷ ys) h =
      let rest : total xs ≤ total ys = total_le xs ys (λ j a e. h (suc j) a e) in
      elim (h 0 x refl) [
        | inl light ↦ omega (arith, rest, light)
        | inr e ↦ omega (arith, rest, ap w (some-injective y x e))
      ]
