-- ===== src/Prelude/Double.antt =====
-- The machine's `double`: the operations that lab3 and lab6 use, about which nothing is assumed.
use sys_op.Prelude.{ℕ, Bool}

pub record Double : Type 1 where
  pub D : Type 0
  pub of_int : ℕ → D
  pub add : D → D → D
  pub sub : D → D → D
  pub mul : D → D → D
  pub div : D → D → D
  pub neg : D → D
  pub ltb : D → D → Bool
  pub eqb : D → D → Bool
