-- ===== src/Base/Bits.antt =====
-- `&`, `|` and `^` of native numbers as arithmetic, at every width: one equation for the lowest
-- digit of each operation, and induction on the width over it.
use Prim.Native.Nat.{
  ℕ, zero, suc, ◌+◌, ◌-◌, ◌*◌, ◌/◌, ◌%◌, ◌^◌, ◌≤◌, ◌<◌, min, max, bit_and, bit_or, bit_xor,
}
use Prim.Native.Nat.{digits, bitwise, differ, bit_and-bitwise, bit_or-bitwise, bit_xor-bitwise}
use mathlib.Core.Path.{◌≡◌, refl, ap, ◌∙◌}
use native.Mathlib.Nat.{pow-suc, one-le-pow}
use native.Mathlib.Omega.{arith}

module _ (z : ℕ → ℕ) (f : ℕ → ℕ → ℕ) where
  -- More fuel than the first number needs changes nothing.
  digits_enough : (n m a b : ℕ) → a ≤ n → a ≤ m → digits z f n a b ≡ digits z f m a b
  digits_enough zero zero zero b p q = refl
  digits_enough zero m (suc a) b p q = absurd (omega arith)
  digits_enough n zero (suc a) b p q = absurd (omega arith)
  digits_enough zero (suc m) zero b p q = refl
  digits_enough (suc n) zero zero b p q = refl
  digits_enough (suc n) (suc m) zero b p q = refl
  digits_enough (suc n) (suc m) (suc a) b p q =
      ap (λ (t : ℕ). t * 2 + f (suc a % 2) (b % 2))
        (digits_enough n m (suc a / 2) (b / 2) (omega arith) (omega arith))

  lowest_digit :
      (a b : ℕ)
      → bitwise z f (suc a) b ≡ bitwise z f (suc a / 2) (b / 2) * 2 + f (suc a % 2) (b % 2)
  lowest_digit a b =
      omega (arith, digits_enough a (suc a / 2) (suc a / 2) (b / 2) (omega arith) (omega arith))

bit_and_digit : (a b : ℕ) → bit_and a b ≡ bit_and (a / 2) (b / 2) * 2 + min (a % 2) (b % 2)
bit_and_digit zero b = simp bit_and-bitwise (omega arith)
bit_and_digit (suc a) b = simp bit_and-bitwise (lowest_digit (λ y. 0) min a b)

bit_or_digit : (a b : ℕ) → bit_or a b ≡ bit_or (a / 2) (b / 2) * 2 + max (a % 2) (b % 2)
bit_or_digit zero b = simp bit_or-bitwise (omega arith)
bit_or_digit (suc a) b = simp bit_or-bitwise (lowest_digit (λ y. y) max a b)

differ_zero : (a : ℕ) → differ a 0 ≡ a
differ_zero zero = refl
differ_zero (suc a) = refl

differ_one : (a : ℕ) → a < 2 → differ a 1 ≡ 1 - a
differ_one zero h = refl
differ_one (suc zero) h = refl
differ_one (suc (suc a)) h = absurd (omega arith)

bit_xor_digit : (a b : ℕ) → bit_xor a b ≡ bit_xor (a / 2) (b / 2) * 2 + differ (a % 2) (b % 2)
bit_xor_digit zero b = simp bit_xor-bitwise (omega arith)
bit_xor_digit (suc a) b = simp bit_xor-bitwise (lowest_digit (λ y. y) differ a b)

double_pow : (q k : ℕ) → q * 2 ^ suc k ≡ q * 2 ^ k * 2
double_pow q k = omega (arith, ap (λ (t : ℕ). q * t) (pow-suc 2 k))

-- A run of `k` low bits and a number shifted past them have no bit in common.
pub bit_or-disjoint : (k r q : ℕ) → r < 2 ^ k → bit_or r (q * 2 ^ k) ≡ r + q * 2 ^ k
bit_or-disjoint zero zero q h = simp bit_or-bitwise (omega arith)
bit_or-disjoint zero (suc r) q h = absurd (omega arith)
bit_or-disjoint (suc k) r q h = ground (
  arith,
  bit_or_digit r (q * 2 ^ suc k),
  double_pow q k,
  pow-suc 2 k,
  bit_or-disjoint k (r / 2) q,
)

bit_and_zero_below : (n a : ℕ) → a ≤ n → bit_and a 0 ≡ 0
bit_and_zero_below n zero h = refl
bit_and_zero_below zero (suc a) h = absurd (omega arith)
bit_and_zero_below (suc n) (suc a) h =
    ground (arith, bit_and_digit (suc a) 0, bit_and_zero_below n (suc a / 2))

bit_and_split : (k r q : ℕ) → r < 2 ^ k → bit_and (r + q * 2 ^ k) (2 ^ k - 1) ≡ r
bit_and_split zero r q h = ground (arith, bit_and_zero_below (r + q * 1) (r + q * 1))
bit_and_split (suc k) r q h = ground (
  arith,
  bit_and_digit (r + q * 2 ^ suc k) (2 ^ suc k - 1),
  double_pow q k,
  pow-suc 2 k,
  one-le-pow k 2,
  bit_and_split k (r / 2) q,
)

-- The mask of `k` ones keeps the remainder by `2 ^ k`.
pub bit_and-ones : (k a : ℕ) → bit_and a (2 ^ k - 1) ≡ a % 2 ^ k
bit_and-ones k a = ground (arith, one-le-pow k 2, bit_and_split k (a % 2 ^ k) (a / 2 ^ k))

bit_xor_zero_below : (n a : ℕ) → a ≤ n → bit_xor a 0 ≡ a
bit_xor_zero_below n zero h = refl
bit_xor_zero_below zero (suc a) h = absurd (omega arith)
bit_xor_zero_below (suc n) (suc a) h =
    ground
      (arith, bit_xor_digit (suc a) 0, differ_zero (suc a % 2), bit_xor_zero_below n (suc a / 2))

pub bit_xor-zero : (a : ℕ) → bit_xor a 0 ≡ a
bit_xor-zero a = bit_xor_zero_below a a (omega arith)

-- Against `k` ones every bit is flipped.
pub bit_xor-ones : (k a : ℕ) → a < 2 ^ k → bit_xor a (2 ^ k - 1) ≡ 2 ^ k - 1 - a
bit_xor-ones zero a h = ground (arith, bit_xor-zero a)
bit_xor-ones (suc k) a h = ground (
  arith,
  bit_xor_digit a (2 ^ suc k - 1),
  differ_one (a % 2),
  pow-suc 2 k,
  one-le-pow k 2,
  bit_xor-ones k (a / 2),
)

differ_twice : (a b : ℕ) → a < 2 → b < 2 → (differ a b < 2) × (differ (differ a b) b ≡ a)
differ_twice zero zero p q = (omega arith, refl)
differ_twice zero (suc zero) p q = (omega arith, refl)
differ_twice (suc zero) zero p q = (omega arith, refl)
differ_twice (suc zero) (suc zero) p q = (omega arith, refl)
differ_twice (suc (suc a)) b p q = absurd (omega arith)
differ_twice zero (suc (suc b)) p q = absurd (omega arith)
differ_twice (suc zero) (suc (suc b)) p q = absurd (omega arith)

-- A mask that is applied twice changes nothing.
pub bit_xor-twice : (k a m : ℕ) → a < 2 ^ k → m < 2 ^ k → bit_xor (bit_xor a m) m ≡ a
bit_xor-twice zero zero zero p q = simp bit_xor-bitwise refl
bit_xor-twice zero (suc a) m p q = absurd (omega arith)
bit_xor-twice zero zero (suc m) p q = absurd (omega arith)
bit_xor-twice (suc k) a m p q =
    let (small, back) = differ_twice (a % 2) (m % 2) (omega arith) (omega arith) in
    let x : ℕ = bit_xor (a / 2) (m / 2) in
    let d : ℕ = differ (a % 2) (m % 2) in
    let half : (x * 2 + d) / 2 ≡ x = omega arith in
    let odd : (x * 2 + d) % 2 ≡ d = omega arith in
    let ih : bit_xor x (m / 2) ≡ a / 2 =
      bit_xor-twice k (a / 2) (m / 2) (omega (arith, pow-suc 2 k)) (omega (arith, pow-suc 2 k)) in
    ap (λ (t : ℕ). bit_xor t m) (bit_xor_digit a m)
    ∙ bit_xor_digit (x * 2 + d) m
    ∙ (λ i. bit_xor (half i) (m / 2) * 2 + differ (odd i) (m % 2))
    ∙ (λ i. ih i * 2 + back i)
    ∙ omega arith
