-- ===== src/Pipes/Tests.antt =====
-- lab3 on concrete numbers: thousandths in place of the machine's doubles.
use sys_op.Prelude.{
  ℕ, zero, suc, ◌+◌, ◌-◌, ◌*◌, ◌/◌, ◌≡◌, ◌<◌, refl, not, ◌||◌, [], ◌∷◌, ◌++◌, some, arith, true,
  ltb, ◌==◌, map, if◌then◌else◌,
}
use sys_op.Prelude.Double.{Double}
use sys_op.Pipes.Integrator.{sum_from, integrand, rectangular_integration, point, area, IsLast}
use sys_op.Pipes.Slices.{World, row}
use sys_op.Pipes.Slices.Rows.{table, total_of}
use sys_op.Pipes.Fifo.{
  Interval, request, serve_all, computing, HasResult, whole_request, server_starves, exchange,
  exchange-area, ended, success,
}

-- No number below 0 comes up here.
abbrev thousandths : Double
thousandths = record {
  D = ℕ;
  of_int = λ n. n * 1000;
  add = λ a b. a + b;
  sub = λ a b. a - b;
  mul = λ a b. a * b / 1000;
  div = λ a b. a * 1000 / b;
  neg = λ a. 0;
  ltb = ltb;
  eqb = λ a b. a == b;
}

quarter_steps : (x : ℕ) → ltb x 1000 ≡ true → 1000 - (x + 250) < 1000 - x
quarter_steps x below = ground arith

-- The child 1 of 2 fails to write.
abbrev world : World thousandths
world = record {
  strtod = λ text. some (250, []);
  malloc_ok = λ k. true;
  pipe_ok = λ k i. true;
  fork_ok = λ k i. true;
  write_ok = λ k i. not (k == 2) || not (i == 1);
  fuel = 10;
}

abbrev sums : ℕ → ℕ → ℕ
sums k (suc i) = 1440
sums k zero = if k == 1 then 3381 else 1941

-- With two children of which the second fails, the total is the sum of the first.
two_rows : table thousandths world.write_ok sums 2 1 ≡ row 1 3381 ∷ row 2 1941 ∷ []
unfolding table total_of
two_rows = refl

abbrev quarter : Interval thousandths
quarter = record { start = 0; end = 1000; dx = 250 }

abbrev no_step : Interval thousandths
no_step = record { start = 0; end = 1000; dx = 0 }

quarter-HasResult : HasResult thousandths 10 quarter 3381
unfolding rectangular_integration sum_from integrand
quarter-HasResult = record { ends = refl }

never_past : (x i : ℕ) → x < 1000 → ltb (point thousandths x 0 i) 1000 ≡ true
unfolding point
never_past x zero lt = ground arith
never_past x (suc i) lt = never_past (x + 0) i (omega arith)

server_starves_example :
    serve_all thousandths 10 (
      map (whole_request thousandths) ((quarter, 3381) ∷ [])
      ++ (request no_step true ∷ request quarter true ∷ []))
    ≡ (3381 ∷ [], computing)
server_starves_example =
    server_starves thousandths 10 ((quarter, 3381) ∷ []) no_step true (request quarter true ∷ [])
      (quarter-HasResult, tt) (λ i. never_past 0 i (omega arith))

exchange-area_example :
    (n : ℕ) × IsLast thousandths 0 1000 250 n
    × (exchange thousandths 1001 (0 ∷ 1000 ∷ 250 ∷ []) true true true
        ≡ ended 0 (success (area thousandths 0 250 n 0) ∷ []))
exchange-area_example =
    exchange-area thousandths (λ x. 1000 - x) 1001 0 1000 250 [] quarter_steps (omega arith)
