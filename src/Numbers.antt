-- ===== src/Numbers.antt =====
-- JavaScript's numbers, as the services use them: a parameter of the model, since they are
-- floating-point. `of_decimal` is `Decimal.toNumber` of a number of hundredths, `to_decimal` is
-- `new Prisma.Decimal` as a `Decimal(8, 2)` column holds it, `parse` is `Number(text)`.
use widget_demo.Prelude.{ℕ, String, Bool}

pub record Numbers : Type 1 where
  pub Number : Type 0
  pub is_finite : Number → Bool
  pub lt : Number → Number → Bool
  pub same : Number → Number → Bool
  pub zero : Number
  pub add : Number → Number → Number
  pub divide : Number → ℕ → Number
  pub of_decimal : ℕ → Number
  pub to_decimal : Number → ℕ
  pub parse : String → Number
