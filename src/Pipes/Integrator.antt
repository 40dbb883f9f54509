-- ===== src/Pipes/Integrator.antt =====
-- The integration of lab3/zad1/integrator.c, over the machine's `double`.
use sys_op.Prelude.{
  ℕ, zero, suc, ◌<◌, ◌≡◌, refl, true, false, if◌then◌else◌, Option, none, some, arith, Bool-cases,
  inl, inr,
}
use sys_op.Prelude.Double.{Double}

module _ (fl : Double) where
  open fl use {D, of_int, add, mul, div, ltb}

  -- function: 4 / (x² + 1)
  unfoldable pub integrand : D → D
  integrand x = div (of_int 4) (add (mul x x) (of_int 1))

  -- The `while` with fuel; `none` means that the fuel ran out.
  unfoldable pub sum_from : ℕ → D → D → D → D → Option D
  sum_from zero end dx x result = none
  sum_from (suc f) end dx x result =
      let more = sum_from f end dx (add x dx) (add result (mul (integrand x) dx)) in
      if ltb x end then more else some result

  unfoldable pub rectangular_integration : ℕ → D → D → D → Option D
  rectangular_integration f start end dx = sum_from f end dx start (of_int 0)

  -- The points at which the rectangles stand, and the rectangles over the first `n` of them, summed
  -- behind `result`.
  unfoldable pub point : D → D → ℕ → D
  point start dx zero = start
  point start dx (suc n) = point (add start dx) dx n

  unfoldable pub area : D → D → ℕ → D → D
  area start dx zero result = result
  area start dx (suc n) result = area (add start dx) dx n (add result (mul (integrand start) dx))

  -- `n` is the number of the first point that is not below `end`.
  pub record IsLast (start end dx : D) (n : ℕ) : Type 0 where
    pub inside : (i : ℕ) → i < n → ltb (point start dx i) end ≡ true
    pub outside : ltb (point start dx n) end ≡ false

  -- The sum stops at the first point that is not below `end`, given fuel for it.
  sum_from-area :
      (n f : ℕ) (end dx x result : D)
      → n < f
      → IsLast x end dx n
      → sum_from f end dx x result ≡ some (area x dx n result)
  unfolding sum_from area point
  sum_from-area zero zero end dx x result lt h = absurd (omega arith)
  sum_from-area zero (suc f) end dx x result lt h = rw h.outside refl
  sum_from-area (suc n) zero end dx x result lt h = absurd (omega arith)
  sum_from-area (suc n) (suc f) end dx x result lt h = rw (h.inside 0 (omega arith)) (
      sum_from-area n f end dx (add x dx) (add result (mul (integrand x) dx)) (omega arith)
        (record { inside = λ i l. h.inside (suc i) (omega arith); outside = h.outside }))

  -- A measure that each step of `dx` below `end` lowers bounds the number of the points.
  IsLast-point :
      (measure : D → ℕ) (b : ℕ) (start end dx : D)
      → ((x : D) → ltb x end ≡ true → measure (add x dx) < measure x)
      → measure start < b
      → (n : ℕ) × (n < b) × IsLast start end dx n
  unfolding point
  IsLast-point measure zero start end dx falls lt = absurd (omega arith)
  IsLast-point measure (suc b) start end dx falls lt = elim (Bool-cases (ltb start end)) [
    | inr out ↦ (0, omega arith, record { inside = λ i l. absurd (omega arith); outside = out })
    | inl below ↦
        let (n, small, last) =
          IsLast-point measure b (add start dx) end dx falls (omega (arith, falls start below)) in
        (suc n, omega arith, record { inside = before below n last; outside = last.outside })
  ]
    where
      before :
          ltb start end ≡ true
          → (n : ℕ) → IsLast (add start dx) end dx n
          → (i : ℕ) → i < suc n
          → ltb (point start dx i) end ≡ true
      before below n last zero l = below
      before below n last (suc i) l = last.inside i (omega arith)

  -- If each step of `dx` from a point below `end` lowers some measure, which is below the fuel at
  -- `start`, then the integration ends: its result is the sum of the rectangles over the points
  -- before the first that is not below `end`, in their order.
  pub integration_ends :
      (measure : D → ℕ) (fuel : ℕ) (start end dx : D)
      → ((x : D) → ltb x end ≡ true → measure (add x dx) < measure x)
      → measure start < fuel
      → (n : ℕ) × IsLast start end dx n
        × (rectangular_integration fuel start end dx ≡ some (area start dx n (of_int 0)))
  unfolding rectangular_integration
  integration_ends measure fuel start end dx falls lt =
      let (n, small, last) = IsLast-point measure fuel start end dx falls lt in
      (n, last, sum_from-area n fuel end dx start (of_int 0) small last)

  never_ends :
      (f : ℕ) (end dx x result : D)
      → ((i : ℕ) → ltb (point x dx i) end ≡ true)
      → sum_from f end dx x result ≡ none
  unfolding sum_from point
  never_ends zero end dx x result h = refl
  never_ends (suc f) end dx x result h =
      rw (h 0) (never_ends f end dx (add x dx) (add result (mul (integrand x) dx)) (λ i. h (suc i)))

  -- The integration ends for no fuel at all when every point is below `end`: so when `start` is and
  -- `dx` is too small to change it, or zero, or negative.
  pub integration_diverges :
      (fuel : ℕ) (start end dx : D)
      → ((i : ℕ) → ltb (point start dx i) end ≡ true)
      → rectangular_integration fuel start end dx ≡ none
  unfolding rectangular_integration
  integration_diverges fuel start end dx below = never_ends fuel end dx start (of_int 0) below
