-- ===== src/RangeLh/StringKeys.antt =====
-- `string_to_int_lex` of Implement/rangeLH.cpp: strings as big-endian numbers.
use range_lh_cplus_plus.Base.{
  ℕ, zero, suc, ◌+◌, ◌-◌, ◌*◌, ◌/◌, ◌%◌, ◌^◌, ◌≤◌, ◌<◌, ◌≡◌, refl, sym, ap, ◌∙◌, arith, List, [],
  ◌∷◌, ◌++◌, length, replicate, length-append, length-replicate, All, le→ltb_false,
}
use range_lh_cplus_plus.Base.Words.{shl64, shl64_small}
use range_lh_cplus_plus.Base.Run.{ok}
use range_lh_cplus_plus.Base.Bits.{pow_suc}
use range_lh_cplus_plus.Base.Bitwise.{bit_or_step, bit_or-zero}
use range_lh_cplus_plus.RangeLh.Keys.{take, pack, string_to_int_lex}
use Prim.Native.Nat.{bit_or, min, max}
use native.Mathlib.Nat.{
  pow-suc, pow-succ', pow-zero, mul_assoc, add-mul, mul-le-mul_right, suc-mul, pow-le-pow_right,
  min-eq_left, zero-mul,
}

-- the lexicographic order of strings
pub data IsBefore : List ℕ → List ℕ → Type 0 where
  ends : (d : ℕ) (t : List ℕ) → IsBefore [] (d ∷ t)
  below : (c d : ℕ) (s t : List ℕ) → c < d → IsBefore (c ∷ s) (d ∷ t)
  shares : (c : ℕ) (s t : List ℕ) → IsBefore s t → IsBefore (c ∷ s) (c ∷ t)

-- at most `n` bytes, none of them 0
abbrev pub IsText : (n : ℕ) → List ℕ → Type 0
IsText n s = (length s ≤ n) × All (λ b. (0 < b) × (b < 256)) s

-- The first `n` bytes as a number, the first the most significant, with 0 where the string ends.
value : (n : ℕ) → List ℕ → ℕ
value zero s = 0
value (suc n) [] = 0
value (suc n) (c ∷ s) = c * 256 ^ n + value n s

value-lt : (n : ℕ) (s : List ℕ) → All (λ b. (0 < b) × (b < 256)) s → value n s < 256 ^ n
unfolding value
value-lt zero s a = omega (arith, pow-zero 256)
value-lt (suc n) [] a = omega (arith, pow-suc 256 n, value-lt n [] a)
value-lt (suc n) (c ∷ s) ((p, b), a) =
    omega (arith, pow-suc 256 n, value-lt n s a, suc-mul c (256 ^ n), mul-le-mul_right (256 ^ n) b)

value-nil : (n : ℕ) → value n [] ≡ 0
unfolding value
value-nil zero = refl
value-nil (suc n) = refl

value-IsBefore :
    (n : ℕ) (s t : List ℕ) → IsBefore s t → IsText n s → IsText n t → value n s < value n t
unfolding value
value-IsBefore zero s t (ends d u) a b = absurd (omega arith)
value-IsBefore zero s t (below c d u w l) a b = absurd (omega arith)
value-IsBefore zero s t (shares c u w h) a b = absurd (omega arith)
value-IsBefore (suc n) s t (ends d u) a (k, ((p, b), bs)) =
    omega (arith, value-nil n, value-lt n [] tt, mul-le-mul_right (256 ^ n) p)
value-IsBefore (suc n) s t (below c d u w l) (j, (a, as_)) (k, (b, bs)) =
    omega (arith, value-lt n u as_, suc-mul c (256 ^ n), mul-le-mul_right (256 ^ n) l)
value-IsBefore (suc n) s t (shares c u w h) (j, (a, as_)) (k, (b, bs)) =
    omega (arith, value-IsBefore n u w h (omega arith, as_) (omega arith, bs))

bit_or-add : (s a b : ℕ) → b < 2 ^ s → bit_or (a * 2 ^ s) b ≡ a * 2 ^ s + b
bit_or-add zero a b l =
    let none : b ≡ 0 = omega arith in ap (bit_or (a * 1)) none ∙ bit_or-zero (a * 1) ∙ omega arith
bit_or-add (suc s) a b l =
    let half : a * 2 ^ suc s ≡ a * 2 ^ s * 2 =
      ap (λ (x : ℕ). a * x) (pow-suc 2 s) ∙ sym (mul_assoc a (2 ^ s) 2) in
    let ih : bit_or (a * 2 ^ s) (b / 2) ≡ a * 2 ^ s + b / 2 =
      bit_or-add s a (b / 2) (omega (arith, pow_suc s)) in
    let whole : a * 2 ^ suc s / 2 ≡ a * 2 ^ s = omega (arith, half) in
    let step : bit_or (a * 2 ^ suc s) b
        ≡ bit_or (a * 2 ^ s) (b / 2) * 2 + max (a * 2 ^ suc s % 2) (b % 2) =
      bit_or_step (a * 2 ^ suc s) b
      ∙ ap (λ x. bit_or x (b / 2) * 2 + max (a * 2 ^ suc s % 2) (b % 2)) whole in
    omega (arith, step, ih, half)

-- A round of the loop, on a number with room for a byte.
shl64-or :
    (result b : ℕ) → result < 256 ^ 7 → b < 256 → bit_or (shl64 result 8) b ≡ result * 256 + b
shl64-or result b l m =
    rw (shl64_small result 8 (omega arith)) (bit_or-add 8 result b (omega arith))

pack-value :
    (n k : ℕ) (buffer : List ℕ) (result : ℕ)
    → n ≤ length buffer
    → All (λ b. b < 256) buffer
    → result < 256 ^ k
    → k + n ≤ 8
    → pack n buffer result ≡ result * 256 ^ n + value n buffer
unfolding pack value
pack-value zero k buffer result l a r e =
    omega (arith, pow-zero 256, ap (λ (x : ℕ). result * x) (pow-zero 256))
pack-value (suc n) k [] result l a r e = absurd (omega arith)
pack-value (suc n) k (b ∷ buffer) result l (m, a) r e =
    let room : 256 ^ k ≤ 256 ^ 7 = pow-le-pow_right (omega arith) {j = 7} (omega arith) in
    let round : bit_or (shl64 result 8) b ≡ result * 256 + b =
      shl64-or result b (omega (arith, room, r)) m in
    let grown : result * 256 + b < 256 ^ suc k = omega (arith, pow-suc 256 k, r) in
    let spread : (result * 256 + b) * 256 ^ n ≡ result * 256 ^ suc n + b * 256 ^ n =
      add-mul (result * 256) b (256 ^ n)
      ∙ ap (λ (x : ℕ). x + b * 256 ^ n)
          (mul_assoc result 256 (256 ^ n) ∙ ap (λ (x : ℕ). result * x) (sym (pow-succ' 256 n))) in
    rw round (
      omega (
        arith,
        pack-value n (suc k) buffer (result * 256 + b) (omega arith) a grown (omega arith),
        spread,
      ))

take_all : (s : List ℕ) → take (length s) s ≡ s
take_all [] = refl
take_all (c ∷ s) = ap (λ t. c ∷ t) (take_all s)

value-zeros : (n z : ℕ) → value n (replicate z 0) ≡ 0
unfolding value
value-zeros zero z = refl
value-zeros (suc n) zero = refl
value-zeros (suc n) (suc z) = omega (arith, value-zeros n z)

value-padded : (n z : ℕ) (s : List ℕ) → value n (s ++ replicate z 0) ≡ value n s
unfolding value
value-padded zero z s = refl
value-padded (suc n) z [] = value-zeros (suc n) z
value-padded (suc n) z (c ∷ s) = omega (arith, value-padded n z s)

All-zeros : (z : ℕ) → All (λ b. b < 256) (replicate z 0)
All-zeros zero = tt
All-zeros (suc z) = (omega arith, All-zeros z)

All-padded :
    (z : ℕ) (s : List ℕ)
    → All (λ b. (0 < b) × (b < 256)) s
    → All (λ b. b < 256) (s ++ replicate z 0)
All-padded z [] a = All-zeros z
All-padded z (c ∷ s) ((p, b), a) = (b, All-padded z s a)

string_to_int_lex-value :
    (max_bytes_string : ℕ) (s : List ℕ)
    → max_bytes_string ≤ 8
    → IsText max_bytes_string s
    → string_to_int_lex max_bytes_string s ≡ ok (value max_bytes_string s)
unfolding string_to_int_lex
string_to_int_lex-value m s l (short, a) =
    let copied : min (length s) m ≡ length s = min-eq_left short in
    let rounds : min m 8 ≡ m = min-eq_left l in
    let zeros = 8 - length s in
    let long : m ≤ length (s ++ replicate zeros 0) =
      omega (arith, length-append s (replicate zeros 0), length-replicate {A = ℕ} zeros 0) in
    rw (copied, rounds, le→ltb_false 8 (length s) (omega arith), take_all s)
      (ap ok (
        pack-value m 0 (s ++ replicate zeros 0) 0 long (All-padded zeros s a)
          (omega (arith, pow-zero 256)) (omega arith)
        ∙ omega (arith, value-padded m zeros s, zero-mul (256 ^ m))))

-- With at most 8 bytes configured, for two strings of at most that many bytes, none of them 0, of
-- which the first comes before the second in the lexicographic order, `string_to_int_lex` is
-- defined on both and gives the first the smaller key.
pub string_to_int_lex_lem :
    (max_bytes_string : ℕ) (s t : List ℕ)
    → max_bytes_string ≤ 8
    → IsText max_bytes_string s
    → IsText max_bytes_string t
    → IsBefore s t
    → (k l : ℕ) × (string_to_int_lex max_bytes_string s ≡ ok k)
      × (string_to_int_lex max_bytes_string t ≡ ok l)
      × (k < l)
string_to_int_lex_lem m s t e a b h = (
  value m s,
  value m t,
  string_to_int_lex-value m s e a,
  string_to_int_lex-value m t e b,
  value-IsBefore m s t h a b,
)
