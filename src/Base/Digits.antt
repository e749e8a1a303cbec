-- ===== src/Base/Digits.antt =====
-- Operations on binary digits, one digit apart from the others.
use Prim.Native.Nat.{ℕ, zero, suc, ◌+◌, ◌*◌, ◌/◌, ◌%◌, ◌≤◌, digits, bitwise}
use mathlib.Core.Path.{◌≡◌, refl, sym, ap, ◌∙◌}
use native.Mathlib.Omega.{arith}

module _ (z : ℕ → ℕ) (f : ℕ → ℕ → ℕ) where
  digits-zero : (n b : ℕ) → digits z f n 0 b ≡ z b
  digits-zero zero b = refl
  digits-zero (suc n) b = refl

  -- Any count of digits that the first number does not exceed gives one result.
  same_digits : (a b m n : ℕ) → a ≤ m → a ≤ n → digits z f m a b ≡ digits z f n a b
  same_digits zero b m n p q = digits-zero m b ∙ sym (digits-zero n b)
  same_digits (suc a) b (suc m) (suc n) p q =
      ap (λ d. d * 2 + f (suc a % 2) (b % 2))
        (same_digits (suc a / 2) (b / 2) m n (omega arith) (omega arith))
  same_digits (suc a) b zero n p q = absurd (omega arith)
  same_digits (suc a) b (suc m) zero p q = absurd (omega arith)

  pub bitwise_step :
      (a b : ℕ)
      → bitwise z f (suc a) b ≡ bitwise z f (suc a / 2) (b / 2) * 2 + f (suc a % 2) (b % 2)
  bitwise_step a b =
      ap (λ d. d * 2 + f (suc a % 2) (b % 2))
        (same_digits (suc a / 2) (b / 2) a (suc a / 2) (omega arith) (omega arith))
