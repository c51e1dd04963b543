-- ===== src/Bits/Step.antt =====
-- The operations on binary digits, one digit at a time.
use Prim.Native.Nat.{min, max, digits, bitwise, differ}
use Prim.Native.Nat.{bit_and-bitwise, bit_or-bitwise, bit_xor-bitwise}
use alpine_on_ios.Prelude.{
  ℕ, zero, suc, ◌+◌, ◌*◌, ◌/◌, ◌%◌, ◌≤◌, ◌<◌, bit_and, bit_or, bit_xor, ◌≡◌, refl, ap, ◌∙◌, arith,
  Bool-cases, inl, inr, leb, leb→le, leb→lt,
}

-- The natives recur on the digits of the left operand, on fuel. One round more than that operand
-- changes nothing, so any fuel from it on is as good as the operand itself.
module _ (last : ℕ → ℕ) (digit : ℕ → ℕ → ℕ) where
  one_more :
      (fuel a b : ℕ) → a ≤ fuel → digits last digit (suc fuel) a b ≡ digits last digit fuel a b
  one_more zero zero b h = refl
  one_more zero (suc a) b h = absurd (omega arith)
  one_more (suc fuel) zero b h = refl
  one_more (suc fuel) (suc a) b h = rw (one_more fuel (suc a / 2) (b / 2) (omega arith))

  settled : (fuel a b : ℕ) → a ≤ fuel → digits last digit fuel a b ≡ digits last digit a a b
  settled zero a b h =
      let none_left : 0 ≡ a = omega arith in ap (λ (t : ℕ). digits last digit t a b) none_left
  settled (suc fuel) a b h = elim (Bool-cases (leb a fuel)) [
    | inl below ↦ one_more fuel a b (leb→le a fuel below) ∙ settled fuel a b (leb→le a fuel below)
    | inr above ↦
        let whole : suc fuel ≡ a = omega (arith, leb→lt a fuel above) in
        ap (λ (t : ℕ). digits last digit t a b) whole
  ]

  lowest :
      (a b low high : ℕ)
      → low ≡ digit (suc a % 2) (b % 2)
      → high ≡ bitwise last digit (suc a / 2) (b / 2)
      → bitwise last digit (suc a) b ≡ high * 2 + low
  lowest a b low high l h = omega (arith, settled a (suc a / 2) (b / 2) (omega arith), l, h)

pub and_step : (a b : ℕ) → bit_and a b ≡ bit_and (a / 2) (b / 2) * 2 + min (a % 2) (b % 2)
and_step zero b = simp bit_and-bitwise (omega arith)
and_step (suc a) b = simp bit_and-bitwise (lowest (λ y. 0) min a b _ _ refl refl)

pub or_step : (a b : ℕ) → bit_or a b ≡ bit_or (a / 2) (b / 2) * 2 + max (a % 2) (b % 2)
or_step zero b = simp bit_or-bitwise (omega arith)
or_step (suc a) b = simp bit_or-bitwise (lowest (λ y. y) max a b _ _ refl refl)

differ_zero : (b : ℕ) → differ 0 b ≡ b
differ_zero b = refl

differ_lem : (a b : ℕ) → a < 2 → b < 2 → differ a b ≡ (a + b) % 2
differ_lem zero b p q = omega arith
differ_lem (suc zero) zero p q = refl
differ_lem (suc zero) (suc zero) p q = refl
differ_lem (suc zero) (suc (suc b)) p q = absurd (omega arith)
differ_lem (suc (suc a)) b p q = absurd (omega arith)

xor_differ : (a b : ℕ) → bit_xor a b ≡ bit_xor (a / 2) (b / 2) * 2 + differ (a % 2) (b % 2)
xor_differ zero b = simp bit_xor-bitwise (omega arith)
xor_differ (suc a) b = simp bit_xor-bitwise (lowest (λ y. y) differ a b _ _ refl refl)

pub xor_step : (a b : ℕ) → bit_xor a b ≡ bit_xor (a / 2) (b / 2) * 2 + (a + b) % 2
xor_step a b = omega (arith, xor_differ a b, differ_lem (a % 2) (b % 2) (omega arith) (omega arith))
