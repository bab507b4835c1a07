-- ===== src/Examples/Fixture.antt =====
-- Numbers in thousandths stand for the doubles of the runs; the logarithms are those that the runs
-- take.
use range_lh_cplus_plus.Base.{ℕ, ◌+◌, ◌-◌, ◌*◌, ◌/◌, ◌==◌, ltb, if◌then◌else◌}
use range_lh_cplus_plus.Base.Run.{ok}
use range_lh_cplus_plus.Base.Float.{Float}

instance abbrev pub milli : Float ℕ
milli = record {
  of_nat = λ n. n * 1000;
  to_nat = λ x. ok (x / 1000);
  add = λ x y. x + y;
  sub = λ x y. x - y;
  mul = λ x y. x * y / 1000;
  div = λ x y. x * 1000 / y;
  neg = λ x. x;
  lt = ltb;
  log = λ x. if x == 2000 then 693 else 4605;
  log2 = λ x. if x == 10000 then 3322 else 6644;
  ceil = λ x. (x + 999) / 1000 * 1000;
  infinity = 0xffff_ffff;
}
