-- ===== src/Base/Ints.antt =====
-- The `int` counter of Implement/rangeLH.h: it can become negative, and its overflow is undefined.
use Prim.Native.Nat.{ℕ, zero, suc, ◌^◌, ◌-◌}
use range_lh_cplus_plus.Base.Tests.{◌==◌, if◌then◌else◌}
use range_lh_cplus_plus.Base.Run.{Run, ok, undefined}

pub data ℤ : Type 0 where
  pos : ℕ → ℤ
  -- `negsuc n` is `-(n + 1)`
  negsuc : ℕ → ℤ

abbrev pub int_max : ℕ
int_max = 2 ^ 31 - 1

abbrev pub increment : ℤ → Run ℤ
increment (pos n) = if n == int_max then undefined else ok (pos (suc n))
increment (negsuc zero) = ok (pos 0)
increment (negsuc (suc n)) = ok (negsuc n)

abbrev pub decrement : ℤ → Run ℤ
decrement (pos zero) = ok (negsuc 0)
decrement (pos (suc n)) = ok (pos n)
decrement (negsuc n) = if n == int_max then undefined else ok (negsuc (suc n))
