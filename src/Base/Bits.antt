-- ===== src/Base/Bits.antt =====
-- The bit operations of the native numbers, by recursion on the lowest digit.
use Prim.Native.Nat.{digits, bit_xor-bitwise, differ}
use Prim.Native.Nat.{ℕ, zero, suc, ◌+◌, ◌-◌, ◌*◌, ◌/◌, ◌%◌, ◌^◌, ◌≤◌, ◌<◌, bit_xor}
use mathlib.Core.Path.{◌≡◌, ◌∙◌, refl, sym, ap}
use native.Mathlib.Omega.{arith}
use native.Mathlib.Nat.{pow-suc}

-- `^` of the lowest digits of two numbers, with the count of digits still to go.
abbrev xor_digits : ℕ → ℕ → ℕ → ℕ
xor_digits count a b = digits (λ y. y) differ count a b

-- Once the first number has run out, the second is left.
xor_digits_zero : (count b : ℕ) → xor_digits count 0 b ≡ b
xor_digits_zero zero b = refl
xor_digits_zero (suc count) b = refl

-- A count that reaches the first number is enough: what is spare changes nothing.
xor_digits_spare :
    (a count spare b : ℕ) → a ≤ count → xor_digits (count + spare) a b ≡ xor_digits count a b
xor_digits_spare zero count spare b h =
    xor_digits_zero (count + spare) b ∙ sym (xor_digits_zero count b)
xor_digits_spare (suc a) zero spare b h = absurd (omega arith)
xor_digits_spare (suc a) (suc count) spare b h =
    let one_more : suc count + spare ≡ suc (count + spare) = omega arith in
    rw (one_more, xor_digits_spare (suc a / 2) count spare (b / 2) (omega arith)) refl

zero-bit_xor : (b : ℕ) → bit_xor 0 b ≡ b
zero-bit_xor b = bit_xor-bitwise 0 b

-- The halves first, then the lowest digit.
bit_xor_step : (a b : ℕ) → bit_xor a b ≡ bit_xor (a / 2) (b / 2) * 2 + differ (a % 2) (b % 2)
bit_xor_step zero b = simp (zero-bit_xor) (omega arith)
bit_xor_step (suc a) b =
    let half : ℕ = suc a / 2 in
    let room : half + (a - half) ≡ a = omega arith in
    let upper : xor_digits a half (b / 2) ≡ xor_digits half half (b / 2) =
      rw room at (xor_digits_spare half half (a - half) (b / 2) (omega arith)) in
    simp bit_xor-bitwise (ap (λ u. u * 2 + differ (suc a % 2) (b % 2)) upper)

-- The digits are 0 and 1.
differ_digits : (d e : ℕ) → d < 2 → e < 2 → (differ d e < 2) × (differ (differ d e) e ≡ d)
differ_digits zero e h k = (omega arith, same e)
  where
    same : (e : ℕ) → differ e e ≡ 0
    same zero = refl
    same (suc e) = same e
differ_digits (suc zero) zero h k = (omega arith, refl)
differ_digits (suc zero) (suc zero) h k = (omega arith, refl)
differ_digits (suc zero) (suc (suc e)) h k = absurd (omega arith)
differ_digits (suc (suc d)) e h k = absurd (omega arith)

pow-two-suc : (k : ℕ) → 2 ^ suc k ≡ 2 * 2 ^ k
pow-two-suc k = omega (arith, pow-suc 2 k)

-- A `^` of two k-bit numbers has k bits, and twice the same `^` gives the number back.
pub bit_xor_width :
    (k a b : ℕ) → a < 2 ^ k → b < 2 ^ k → (bit_xor a b < 2 ^ k) × (bit_xor (bit_xor a b) b ≡ a)
bit_xor_width zero zero zero ha hb = (omega arith, refl)
bit_xor_width zero zero (suc b) ha hb = absurd (omega arith)
bit_xor_width zero (suc a) b ha hb = absurd (omega arith)
bit_xor_width (suc k) a b ha hb =
    let (lt, twice) =
      bit_xor_width k (a / 2) (b / 2) (omega (arith, pow-two-suc k))
        (omega (arith, pow-two-suc k)) in
    let (digit, back) = differ_digits (a % 2) (b % 2) (omega arith) (omega arith) in
    let half : bit_xor a b / 2 ≡ bit_xor (a / 2) (b / 2) = omega (arith, bit_xor_step a b) in
    let low : bit_xor a b % 2 ≡ differ (a % 2) (b % 2) = omega (arith, bit_xor_step a b) in
    (
      omega (arith, bit_xor_step a b, pow-two-suc k),
      rw (bit_xor_step (bit_xor a b) b, half, low, twice, back) (omega arith),
    )

pub bit_xor_twice : (k a b : ℕ) → a < 2 ^ k → b < 2 ^ k → bit_xor (bit_xor a b) b ≡ a
bit_xor_twice k a b ha hb = (bit_xor_width k a b ha hb).1

pub bit_xor_bound : (k a b : ℕ) → a < 2 ^ k → b < 2 ^ k → bit_xor a b < 2 ^ k
bit_xor_bound k a b ha hb = (bit_xor_width k a b ha hb).0
