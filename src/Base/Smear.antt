-- ===== src/Base/Smear.antt =====
-- `|` on numbers of every size, and what `x |= x >> t` does to a number whose highest bits are
-- ones.
use Prim.Native.Nat.{ℕ, zero, suc, ◌+◌, ◌-◌, ◌*◌, ◌/◌, ◌%◌, ◌^◌, ◌≤◌, ◌<◌, min, bit_and, bit_or}
use mathlib.Core.Path.{◌≡◌, ap, ◌∙◌, sym}
use native.Mathlib.Decide.{dec_lt}
use native.Mathlib.Omega.{arith}
use native.Mathlib.Nat.{
  div-div-eq-div-mul, div-mul-le_self, le-div_iff_mul-le, div-lt_iff_lt-mul, mul-pos, div-eq_of_lt,
}
use range_lh_cplus_plus.Base.Bitwise.{bit_and_step, bit_or_step, bit_or-zero}
use range_lh_cplus_plus.Base.Bits.{pow_pos, pow_suc, pow_add, pow_mono}

pub div_pow_suc : (a s : ℕ) → a / 2 ^ suc s ≡ a / 2 / 2 ^ s
div_pow_suc a s = rw pow_suc (sym (div-div-eq-div-mul a 2 (2 ^ s)))

pub div_pow_add : (a s t : ℕ) → a / 2 ^ (s + t) ≡ a / 2 ^ s / 2 ^ t
div_pow_add a s t = rw pow_add (sym (div-div-eq-div-mul a (2 ^ s) (2 ^ t)))

div_one : (a : ℕ) → a / 2 ^ 0 ≡ a
div_one a = omega arith

-- A shift distributes over `|` and `&`.
pub bit_or-div : (s a b : ℕ) → bit_or a b / 2 ^ s ≡ bit_or (a / 2 ^ s) (b / 2 ^ s)
bit_or-div zero a b = rw (div_one (bit_or a b), div_one a, div_one b)
bit_or-div (suc s) a b =
    let half : bit_or a b / 2 ≡ bit_or (a / 2) (b / 2) = omega (arith, bit_or_step a b) in
    rw (div_pow_suc (bit_or a b) s, div_pow_suc a s, div_pow_suc b s, half)
      (bit_or-div s (a / 2) (b / 2))

pub bit_and-div : (s a b : ℕ) → bit_and a b / 2 ^ s ≡ bit_and (a / 2 ^ s) (b / 2 ^ s)
bit_and-div zero a b = rw (div_one (bit_and a b), div_one a, div_one b)
bit_and-div (suc s) a b =
    let half : bit_and a b / 2 ≡ bit_and (a / 2) (b / 2) = omega (arith, bit_and_step a b) in
    rw (div_pow_suc (bit_and a b) s, div_pow_suc a s, div_pow_suc b s, half)
      (bit_and-div s (a / 2) (b / 2))

-- `|` with a mask of ones fills the low bits.
pub bit_or_mask : (j u : ℕ) → bit_or u (2 ^ j - 1) ≡ u / 2 ^ j * 2 ^ j + (2 ^ j - 1)
bit_or_mask zero u = omega (arith, bit_or-zero u)
bit_or_mask (suc j) u =
    let low : (2 * 2 ^ j - 1) / 2 ≡ 2 ^ j - 1 = omega (arith, pow_pos j) in
    let odd : (2 * 2 ^ j - 1) % 2 ≡ 1 = omega (arith, pow_pos j) in
    rw (div_pow_suc, pow_suc, bit_or_step, low, odd, bit_or_mask j (u / 2))
      (omega (arith, pow_pos j))

pred_mul : (a p : ℕ) → 0 < a → (a - 1) * p + p ≡ a * p
pred_mul zero p h = absurd (omega arith)
pred_mul (suc k) p h = let e : suc k - 1 ≡ k = omega arith in rw e (omega arith)

pub mul_mono : (a b c : ℕ) → a ≤ b → a * c ≤ b * c
mul_mono a b c h = grind arith

-- The three parts of a shift by `t`, over the powers `T`, `S` and `J` of `t`, `s` and `j`.
module _ (T S J x : ℕ) (pt : 0 < T) (ps : 0 < S) (pj : 0 < J) (short : J ≤ T)
    (below : x < T * S * J) (ones : T * S * J ≤ x + S * J) where
  products : S * J ≤ S * T
  products = grind arith

  shifted : x / (T * S) ≡ J - 1
  shifted =
      let low : J - 1 ≤ x / (T * S) =
        (le-div_iff_mul-le (mul-pos pt ps)).1 (omega (arith, pred_mul J (T * S) pj, products)) in
      let high : x / (T * S) < J = (div-lt_iff_lt-mul (mul-pos pt ps)).1 (omega arith) in
      omega arith

  kept : T - 1 ≤ x / (S * J)
  kept = (le-div_iff_mul-le (mul-pos ps pj)).1 (omega (arith, pred_mul T (S * J) pt))

-- If the highest `t` of the `t + s + j` bits are ones, then after the step the highest `t + j` are.
smear_long :
    (t s j x : ℕ)
    → j ≤ t
    → x < 2 ^ t * 2 ^ s * 2 ^ j
    → 2 ^ t * 2 ^ s * 2 ^ j ≤ x + 2 ^ s * 2 ^ j
    → 2 ^ t * 2 ^ s * 2 ^ j ≤ bit_or x (x / 2 ^ t) + 2 ^ s
smear_long t s j x short below ones =
    let T = 2 ^ t in
    let S = 2 ^ s in
    let J = 2 ^ j in
    let y = bit_or x (x / 2 ^ t) in
    let e₁ : y / S ≡ x / (S * J) * J + (J - 1) =
      bit_or-div s x (x / 2 ^ t)
      ∙ rw (
        div-div-eq-div-mul x T S,
        shifted T S J x (pow_pos t) (pow_pos s) (pow_pos j) (pow_mono j t short) below ones,
        bit_or_mask j (x / S),
        div-div-eq-div-mul x S J,
      ) in
    let e₂ : T * J ≤ y / S + 1 = omega (
      arith,
      e₁,
      pow_pos j,
      pred_mul T J (pow_pos t),
      mul_mono (T - 1) (x / (S * J)) J
          (kept T S J x (pow_pos t) (pow_pos s) (pow_pos j) (pow_mono j t short) below ones),
    ) in
    omega (arith, mul_mono (T * J) (y / S + 1) S e₂, div-mul-le_self y S)

pub bit_or-lt : (l a b : ℕ) → a < 2 ^ l → b < 2 ^ l → bit_or a b < 2 ^ l
bit_or-lt l a b ha hb =
    let za : a / 2 ^ l ≡ 0 = div-eq_of_lt ha in
    let zb : b / 2 ^ l ≡ 0 = div-eq_of_lt hb in
    let z : bit_or a b / 2 ^ l ≡ 0 = bit_or-div l a b ∙ rw (za, zb) in
    omega (arith, (div-lt_iff_lt-mul {x = bit_or a b} {y = 1} (pow_pos l)).0 (omega arith))

-- One step doubles the number of ones at the high end of an `l`-bit number.
pub smear_ones :
    (l t x : ℕ)
    → x < 2 ^ l
    → 2 ^ l ≤ x + 2 ^ (l - t)
    → (bit_or x (x / 2 ^ t) < 2 ^ l) × (2 ^ l ≤ bit_or x (x / 2 ^ t) + 2 ^ (l - 2 * t))
smear_ones l t x below ones = (
  bit_or-lt l x (x / 2 ^ t) below (omega (arith, div-mul-le_self x (2 ^ t), pow_pos t)),
  elim (dec_lt t l) [
    | yes part ↦
        let j = min t (l - t) in
        let s = l - t - j in
        let all : l ≡ t + s + j = omega arith in
        let up : l - t ≡ s + j = omega arith in
        let left : l - 2 * t ≡ s = omega arith in
        let width : 2 ^ l ≡ 2 ^ t * 2 ^ s * 2 ^ j =
          ap (λ (n : ℕ). 2 ^ n) all ∙ pow_add (t + s) j ∙ ap (λ (n : ℕ). n * 2 ^ j) (pow_add t s) in
        let rest : 2 ^ (l - t) ≡ 2 ^ s * 2 ^ j = ap (λ (n : ℕ). 2 ^ n) up ∙ pow_add s j in
        rw left (omega (arith, smear_long t s j x (omega arith) (omega arith) (omega arith)))
    | no full ↦
        let none_left : l - t ≡ 0 = omega arith in
        let none_left' : l - 2 * t ≡ 0 = omega arith in
        let gone : x / 2 ^ t ≡ 0 = div-eq_of_lt (omega (arith, pow_mono l t (omega arith))) in
        rw (gone, bit_or-zero, none_left') (rw none_left at ones)
  ],
)
