-- ===== src/Float.antt =====
-- The type `double` and what the program does with it.
use iotop_cpp.Base.{ℕ, Bool}
use iotop_cpp.Text.{Text}

pub record Float : Type 1 where
  pub Value : Type 0
  -- `static_cast<double>` of an unsigned number, and a literal such as 1E9.
  pub of_ℕ : ℕ → Value
  pub add : Value → Value → Value
  pub mul : Value → Value → Value
  pub div : Value → Value → Value
  pub lt : Value → Value → Bool
  -- The literal 1E-3.
  pub milli : Value
  -- `%N.2f`
  pub show : ℕ → Value → Text
