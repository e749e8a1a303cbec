-- ===== src/Base/Xor.antt =====
-- Exclusive or of numbers, digit by digit: `^` of Go on bytes.
use Prim.Native.Nat.{ℕ, zero, suc, ◌+◌, ◌*◌, ◌/◌, ◌%◌, ◌≤◌, ◌<◌, bit_xor, differ, bit_xor-bitwise}
use mathlib.Core.Path.{◌≡◌, refl, sym, ap₂, ◌∙◌}
use native.Mathlib.Omega.{arith}
use migp.Base.Digits.{bitwise_step}

pub zero-bit_xor : (b : ℕ) → bit_xor 0 b ≡ b
zero-bit_xor b = bit_xor-bitwise 0 b

differ-eq-mod : (x y : ℕ) → x < 2 → y < 2 → differ x y ≡ (x + y) % 2
differ-eq-mod zero y p q = omega arith
differ-eq-mod (suc zero) zero p q = refl
differ-eq-mod (suc zero) (suc zero) p q = refl
differ-eq-mod (suc zero) (suc (suc y)) p q = absurd (omega arith)
differ-eq-mod (suc (suc x)) y p q = absurd (omega arith)

-- The lowest digit apart from the others.
bit_xor_step : (a b : ℕ) → bit_xor a b ≡ bit_xor (a / 2) (b / 2) * 2 + (a % 2 + b % 2) % 2
bit_xor_step zero b = omega (arith, zero-bit_xor b, zero-bit_xor (b / 2))
bit_xor_step (suc a) b =
    bit_xor-bitwise (suc a) b
    ∙ bitwise_step (λ d. d) differ a b
    ∙ ap₂ (λ h d. h * 2 + d) (sym (bit_xor-bitwise (suc a / 2) (b / 2)))
        (differ-eq-mod (suc a % 2) (b % 2) (omega arith) (omega arith))

bit_xor_comm_fuel : (n a b : ℕ) → a ≤ n → b ≤ n → bit_xor a b ≡ bit_xor b a
bit_xor_comm_fuel zero zero zero p q = refl
bit_xor_comm_fuel zero (suc a) b p q = absurd (omega arith)
bit_xor_comm_fuel zero zero (suc b) p q = absurd (omega arith)
bit_xor_comm_fuel (suc n) a b p q = omega (
  arith,
  bit_xor_step a b,
  bit_xor_step b a,
  bit_xor_comm_fuel n (a / 2) (b / 2) (omega arith) (omega arith),
)

pub bit_xor_comm : (a b : ℕ) → bit_xor a b ≡ bit_xor b a
bit_xor_comm a b = bit_xor_comm_fuel (a + b) a b (omega arith) (omega arith)

halve_xor : (a b x : ℕ) → x ≡ bit_xor a b → x / 2 ≡ bit_xor (a / 2) (b / 2)
halve_xor a b x e = omega (arith, bit_xor_step a b)

low_xor : (a b x : ℕ) → x ≡ bit_xor a b → x % 2 ≡ (a % 2 + b % 2) % 2
low_xor a b x e = omega (arith, bit_xor_step a b)

bit_xor_cancel_fuel : (n a b x : ℕ) → a ≤ n → b ≤ n → x ≡ bit_xor a b → bit_xor x b ≡ a
bit_xor_cancel_fuel zero zero zero x p q e = rw e refl
bit_xor_cancel_fuel zero (suc a) b x p q e = absurd (omega arith)
bit_xor_cancel_fuel zero zero (suc b) x p q e = absurd (omega arith)
bit_xor_cancel_fuel (suc n) a b x p q e = omega (
  arith,
  bit_xor_step x b,
  low_xor a b x e,
  bit_xor_cancel_fuel n (a / 2) (b / 2) (x / 2) (omega arith) (omega arith) (halve_xor a b x e),
)

-- The same mask twice gives the number back, from either side.
pub bit_xor_cancel : (a b : ℕ) → bit_xor (bit_xor a b) b ≡ a
bit_xor_cancel a b = bit_xor_cancel_fuel (a + b) a b (bit_xor a b) (omega arith) (omega arith) refl

pub bit_xor_cancel_left : (a b : ℕ) → bit_xor b (bit_xor a b) ≡ a
bit_xor_cancel_left a b = bit_xor_comm b (bit_xor a b) ∙ bit_xor_cancel a b
