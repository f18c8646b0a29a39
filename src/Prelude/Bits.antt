-- ===== src/Prelude/Bits.antt =====
-- Facts about `bit_and` and `bit_xor` at variables: the tactics take such a call for an unknown.
use Prim.Native.Nat.{
  ℕ, zero, suc, ◌+◌, ◌*◌, ◌/◌, ◌%◌, ◌^◌, ◌≤◌, ◌<◌, min, bit_and, bit_xor, digits, bit_and-bitwise,
  bit_xor-bitwise, differ,
}
use mathlib.Core.Path.{◌≡◌, refl, ap, sym, ◌∙◌}
use mathlib.Core.Bool.{Bool, true, false}
use cosmic.Prelude.Tests.{if◌then◌else◌}
use mathlib.Core.Logic.{◌⊎◌, ◌↔◌, inl, inr}
use native.Mathlib.Nat.{pow-suc}
use native.Mathlib.Omega.{arith}

-- The conjunction by its digits, with the number of rounds left open.
abbrev digitwise_and : ℕ → ℕ → ℕ → ℕ
digitwise_and rounds a b = digits (λ y. zero) min rounds a b

-- Any number of rounds that reaches the first argument gives the same digits.
digitwise_and_rounds : (k l a b : ℕ) → a ≤ k → a ≤ l → digitwise_and k a b ≡ digitwise_and l a b
digitwise_and_rounds zero zero a b p q = refl
digitwise_and_rounds zero (suc l) zero b p q = refl
digitwise_and_rounds zero (suc l) (suc a) b p q = absurd (omega arith)
digitwise_and_rounds (suc k) zero zero b p q = refl
digitwise_and_rounds (suc k) zero (suc a) b p q = absurd (omega arith)
digitwise_and_rounds (suc k) (suc l) zero b p q = refl
digitwise_and_rounds (suc k) (suc l) (suc a) b p q =
    omega (arith, digitwise_and_rounds k l (suc a / 2) (b / 2) (omega arith) (omega arith))

-- One binary digit of a conjunction.
pub bit_and_digit : (a b : ℕ) → bit_and a b ≡ bit_and (a / 2) (b / 2) * 2 + min (a % 2) (b % 2)
bit_and_digit zero b = omega (arith, bit_and-bitwise 0 b, bit_and-bitwise 0 (b / 2))
bit_and_digit (suc a) b = omega (
  arith,
  bit_and-bitwise (suc a) b,
  bit_and-bitwise (suc a / 2) (b / 2),
  digitwise_and_rounds a (suc a / 2) (suc a / 2) (b / 2) (omega arith) (omega arith),
)

-- By the bound `k` on the first argument.
bit_and-zero_below : (k a : ℕ) → a ≤ k → bit_and a 0 ≡ 0
bit_and-zero_below k zero h = refl
bit_and-zero_below zero (suc a) h = absurd (omega arith)
bit_and-zero_below (suc k) (suc a) h =
    omega (arith, bit_and_digit (suc a) 0, bit_and-zero_below k (suc a / 2) (omega arith))

pub bit_and-zero : (a : ℕ) → bit_and a 0 ≡ 0
bit_and-zero a = bit_and-zero_below a a (omega arith)

-- A mask of four or five ones is a remainder.
pub bit_and-15 : (a : ℕ) → bit_and a 15 ≡ a % 16
bit_and-15 a = omega (
  arith,
  bit_and_digit a 15,
  bit_and_digit (a / 2) 7,
  bit_and_digit (a / 2 / 2) 3,
  bit_and_digit (a / 2 / 2 / 2) 1,
  bit_and-zero (a / 2 / 2 / 2 / 2),
)

pub bit_and-31 : (a : ℕ) → bit_and a 31 ≡ a % 32
bit_and-31 a = omega (arith, bit_and_digit a 31, bit_and-15 (a / 2))

-- The exclusive disjunction, likewise.
abbrev digitwise_xor : ℕ → ℕ → ℕ → ℕ
digitwise_xor rounds a b = digits (λ y. y) differ rounds a b

digitwise_xor_rounds : (k l a b : ℕ) → a ≤ k → a ≤ l → digitwise_xor k a b ≡ digitwise_xor l a b
digitwise_xor_rounds zero zero a b p q = refl
digitwise_xor_rounds zero (suc l) zero b p q = refl
digitwise_xor_rounds zero (suc l) (suc a) b p q = absurd (omega arith)
digitwise_xor_rounds (suc k) zero zero b p q = refl
digitwise_xor_rounds (suc k) zero (suc a) b p q = absurd (omega arith)
digitwise_xor_rounds (suc k) (suc l) zero b p q = refl
digitwise_xor_rounds (suc k) (suc l) (suc a) b p q =
    omega (arith, digitwise_xor_rounds k l (suc a / 2) (b / 2) (omega arith) (omega arith))

differ-zero : (b : ℕ) → b < 2 → differ 0 b ≡ b
differ-zero b h = ground arith

-- One binary digit.
pub bit_xor_digit : (a b : ℕ) → bit_xor a b ≡ bit_xor (a / 2) (b / 2) * 2 + differ (a % 2) (b % 2)
bit_xor_digit zero b =
    omega (arith, bit_xor-bitwise 0 b, bit_xor-bitwise 0 (b / 2), differ-zero (b % 2))
bit_xor_digit (suc a) b = omega (
  arith,
  bit_xor-bitwise (suc a) b,
  bit_xor-bitwise (suc a / 2) (b / 2),
  digitwise_xor_rounds a (suc a / 2) (suc a / 2) (b / 2) (omega arith) (omega arith),
)

differ-lt : (a b : ℕ) → a < 2 → b < 2 → differ a b < 2
differ-lt zero zero p q = omega arith
differ-lt zero (suc zero) p q = omega arith
differ-lt zero (suc (suc b)) p q = absurd (omega arith)
differ-lt (suc zero) zero p q = omega arith
differ-lt (suc zero) (suc zero) p q = omega arith
differ-lt (suc zero) (suc (suc b)) p q = absurd (omega arith)
differ-lt (suc (suc a)) b p q = absurd (omega arith)

differ_zero : (a b : ℕ) → a < 2 → b < 2 → differ a b ≡ 0 → a ≡ b
differ_zero a b p q h = ground arith

pub bit_xor_half : (a b : ℕ) → bit_xor a b / 2 ≡ bit_xor (a / 2) (b / 2)
bit_xor_half a b =
    omega (arith, bit_xor_digit a b, differ-lt (a % 2) (b % 2) (omega arith) (omega arith))

bit_xor-eq_below : (k a b : ℕ) → a + b ≤ k → bit_xor a b ≡ 0 → a ≡ b
bit_xor-eq_below zero a b h e = omega arith
bit_xor-eq_below (suc k) a b h e = elim (zero_or_pos a b) [
  | inl none_left ↦ none_left
  | inr pos ↦
      let low : a % 2 ≡ b % 2 =
        differ_zero (a % 2) (b % 2) (omega arith) (omega arith)
          (omega (arith, bit_xor_digit a b)) in
      let high : a / 2 ≡ b / 2 =
        bit_xor-eq_below k (a / 2) (b / 2) (omega arith) (omega (arith, bit_xor_half a b)) in
      omega arith
]
  where
    zero_or_pos : (a b : ℕ) → (a ≡ b) ⊎ (0 < a + b)
    zero_or_pos zero zero = inl refl
    zero_or_pos zero (suc b) = inr (omega arith)
    zero_or_pos (suc a) b = inr (omega arith)

-- Two numbers differ in no digit exactly when they are equal.
pub bit_xor-eq : (a b : ℕ) → bit_xor a b ≡ 0 → a ≡ b
bit_xor-eq a b = bit_xor-eq_below (a + b) a b (omega arith)

bit_xor_self_below : (k a : ℕ) → a ≤ k → bit_xor a a ≡ 0
bit_xor_self_below k zero h = refl
bit_xor_self_below zero (suc a) h = absurd (omega arith)
bit_xor_self_below (suc k) (suc a) h = omega (
  arith,
  bit_xor_digit (suc a) (suc a),
  bit_xor_self_below k (suc a / 2) (omega arith),
  same_digit (suc a % 2) (omega arith),
)
  where
    same_digit : (d : ℕ) → d < 2 → differ d d ≡ 0
    same_digit zero h = refl
    same_digit (suc zero) h = refl
    same_digit (suc (suc d)) h = absurd (omega arith)

pub bit_xor_self : (a : ℕ) → bit_xor a a ≡ 0
bit_xor_self a = bit_xor_self_below a a (omega arith)

-- Over a small range, a table proves a test of every value.
unfoldable pub holds_below : (ℕ → Bool) → ℕ → Bool
holds_below test zero = true
holds_below test (suc limit) = if test limit then holds_below test limit else false

pub holds_below-at :
    (test : ℕ → Bool) (limit at : ℕ) → holds_below test limit ≡ true → at < limit → test at ≡ true
unfolding holds_below
holds_below-at test zero at table small = absurd (omega arith)
holds_below-at test (suc limit) at table small = ground (arith, holds_below-at test limit at)

-- A number without its last `k` binary digits.
abbrev pub halve : ℕ → ℕ → ℕ
halve zero x = x
halve (suc k) x = halve k (x / 2)

pub bit_xor-halve : (k a b : ℕ) → halve k (bit_xor a b) ≡ bit_xor (halve k a) (halve k b)
bit_xor-halve zero a b = refl
bit_xor-halve (suc k) a b = ap (halve k) (bit_xor_half a b) ∙ bit_xor-halve k (a / 2) (b / 2)

pub halve-zero : (k w : ℕ) → (w < 2 ^ k) ↔ (halve k w ≡ 0)
halve-zero zero w = (λ h. omega arith, λ h. omega arith)
halve-zero (suc k) w = (
  λ h. (halve-zero k (w / 2)).0 (omega (arith, pow-suc 2 k)),
  λ h. omega (arith, pow-suc 2 k, (halve-zero k (w / 2)).1 h),
)

-- Two numbers differ below the digit `k` only, exactly when their higher digits are the same.
pub bit_xor-lt : (k a b : ℕ) → (bit_xor a b < 2 ^ k) ↔ (halve k a ≡ halve k b)
bit_xor-lt k a b = (
  λ h. bit_xor-eq _ _ (sym (bit_xor-halve k a b) ∙ (halve-zero k (bit_xor a b)).0 h),
  λ h. (halve-zero k (bit_xor a b)).1 (bit_xor-halve k a b ∙ (rw h (bit_xor_self (halve k b)))),
)
