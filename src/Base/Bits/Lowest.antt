-- ===== src/Base/Bits/Lowest.antt =====
-- The native `bit_and` and `bit_or` stand for `digits`, a recursion on binary digits that carries
-- fuel. Here the fuel goes, and what is left are the half and the lowest digit of a result.
use Prim.Native.Nat.{
  ℕ, zero, suc, ◌+◌, ◌*◌, ◌/◌, ◌%◌, ◌≤◌, min, max, bit_and, bit_or, digits, bit_and-bitwise,
  bit_or-bitwise,
}
use mathlib.Core.Path.{◌≡◌, refl, ap, ◌∙◌, sym}
use native.Mathlib.Omega.{arith}

module _ (rest : ℕ → ℕ) (op : ℕ → ℕ → ℕ) where
  -- The fuel does not show in the digits, as long as it is not less than the first operand.
  enough : {f g a : ℕ} (b : ℕ) → a ≤ f → a ≤ g → digits rest op f a b ≡ digits rest op g a b
  enough {f = zero} {g = zero} {a = zero} b h k = refl
  enough {f = zero} {g = suc g} {a = zero} b h k = refl
  enough {f = suc f} {g = zero} {a = zero} b h k = refl
  enough {f = suc f} {g = suc g} {a = zero} b h k = refl
  enough {f = zero} {a = suc a} b h k = absurd (omega arith)
  enough {f = suc f} {g = zero} {a = suc a} b h k = absurd (omega arith)
  enough {f = suc f} {g = suc g} {a = suc a} b h k =
      let below : suc a / 2 ≤ f = omega arith in
      let below' : suc a / 2 ≤ g = omega arith in
      ap (λ half. half * 2 + op (suc a % 2) (b % 2))
        (enough {f = f} {g = g} {a = suc a / 2} (b / 2) below below')

  -- One digit is split off.
  peel :
      (a b : ℕ)
      → digits rest op (suc a) (suc a) b
        ≡ digits rest op (suc a / 2) (suc a / 2) (b / 2) * 2 + op (suc a % 2) (b % 2)
  peel a b =
      ap (λ half. half * 2 + op (suc a % 2) (b % 2))
        (enough {f = a} (b / 2) (omega arith) (omega arith))

and_peel : (a b : ℕ) → bit_and (suc a) b ≡ bit_and (suc a / 2) (b / 2) * 2 + min (suc a % 2) (b % 2)
and_peel a b =
    bit_and-bitwise (suc a) b
    ∙ peel (λ _. 0) min a b
    ∙ ap (λ h. h * 2 + min (suc a % 2) (b % 2)) (sym (bit_and-bitwise (suc a / 2) (b / 2)))

or_peel : (a b : ℕ) → bit_or (suc a) b ≡ bit_or (suc a / 2) (b / 2) * 2 + max (suc a % 2) (b % 2)
or_peel a b =
    bit_or-bitwise (suc a) b
    ∙ peel (λ y. y) max a b
    ∙ ap (λ h. h * 2 + max (suc a % 2) (b % 2)) (sym (bit_or-bitwise (suc a / 2) (b / 2)))

pub bit_and_low : (a b : ℕ) → bit_and a b % 2 ≡ min (a % 2) (b % 2)
bit_and_low zero b = ap (λ h. h % 2) (bit_and-bitwise 0 b) ∙ omega arith
bit_and_low (suc a) b = omega (arith, and_peel a b)

pub half-bit_and : (a b : ℕ) → bit_and a b / 2 ≡ bit_and (a / 2) (b / 2)
half-bit_and zero b = ap (λ h. h / 2) (bit_and-bitwise 0 b) ∙ sym (bit_and-bitwise 0 (b / 2))
half-bit_and (suc a) b = omega (arith, and_peel a b)

pub bit_or_low : (a b : ℕ) → bit_or a b % 2 ≡ max (a % 2) (b % 2)
bit_or_low zero b = ap (λ h. h % 2) (bit_or-bitwise 0 b) ∙ omega arith
bit_or_low (suc a) b = omega (arith, or_peel a b)

pub half-bit_or : (a b : ℕ) → bit_or a b / 2 ≡ bit_or (a / 2) (b / 2)
half-bit_or zero b = ap (λ h. h / 2) (bit_or-bitwise 0 b) ∙ sym (bit_or-bitwise 0 (b / 2))
half-bit_or (suc a) b = omega (arith, or_peel a b)
