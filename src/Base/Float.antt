-- ===== src/Base/Float.antt =====
-- The `double` of C++ and the functions of <cmath> that the program calls. The language has no
-- floating point, so a type of doubles and its operations are an interface; no law is assumed.
use Prim.Native.Nat.{ℕ}
use mathlib.Core.Bool.{Bool}
use range_lh_cplus_plus.Base.Run.{Run}

pub record Float (D : Type 0) : Type 0 where
  -- `static_cast<double>(n)`
  pub of_nat : ℕ → D
  -- `static_cast<size_t>(x)`: undefined where `x` without its fraction is no `size_t`
  pub to_nat : D → Run ℕ
  pub add : D → D → D
  pub sub : D → D → D
  pub mul : D → D → D
  pub div : D → D → D
  pub neg : D → D
  pub lt : D → D → Bool
  pub log : D → D
  pub log2 : D → D
  pub ceil : D → D
  -- `std::numeric_limits<double>::infinity()`
  pub infinity : D
