-- ===== src/Reals.antt =====
-- Floating-point numbers as the code uses them. The operations of `double` and `long double` are the
-- machine's; they are a parameter, and so is whatever law a theorem needs of them.
use yumtech_umbrel_apps.Prelude.{ℕ, Bool, Option}
use yumtech_umbrel_apps.Prelude.Texts.{Text}

pub record Reals (D : Type 0) : Type 0 where
  -- The number of an unsigned integer, that of an `int64_t` given by its 64 bits, and `n / d`.
  pub of_nat : ℕ → D
  pub of_int64 : ℕ → D
  pub ratio : ℕ → ℕ → D
  pub add : D → D → D
  pub sub : D → D → D
  pub mul : D → D → D
  pub div : D → D → D
  pub exp : D → D
  pub round : D → D
  -- `llround`, as the 64 bits of its result.
  pub llround : D → ℕ
  -- `std::stod`, with `none` for its exceptions, and `std::isfinite`.
  pub stod : Text → Option D
  pub is_finite : D → Bool
  pub lt : D → D → Bool
  pub eq : D → D → Bool
