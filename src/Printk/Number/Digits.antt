-- ===== src/Printk/Number/Digits.antt =====
-- The digits that `number` of kernel/printk.c works out, against positional notation.
use mathlib.Core.Path.{subst}
use native.Mathlib.Decide.{dec_lt}
use native.Mathlib.Nat.{
  one-le-pow, le-div_iff_mul-le, pow-le-pow_right, mod-add-div, mod-lt, div-lt_iff_lt-mul, pow-suc,
  pow-zero, pow-le-pow_left,
}
use knos.Base.{
  ℕ, true, false, zero, suc, ◌+◌, ◌-◌, ◌⊎◌, refl, sym, length, ◌*◌, ◌/◌, ◌%◌, ◌^◌, ◌≤◌, ◌<◌, ◌≡◌,
  ap, ◌∙◌, inl, inr, Bool-cases, List, [], ◌∷◌, arith, ◌==◌,
}
use knos.Printk.Number.{digits_loop, digits_of}

-- The number that the digits stand for, the lowest first.
unfoldable pub value : ℕ → List ℕ → ℕ
value base [] = 0
value base (d ∷ ds) = d + base * value base ds

-- Each digit is below the base.
unfoldable pub AreDigits : ℕ → List ℕ → Type 0
AreDigits base [] = 0 ≤ 0
AreDigits base (d ∷ ds) = (d < base) × AreDigits base ds

quotient-bound : (num base n : ℕ) → 2 ≤ base → num < base ^ suc n → num / base < base ^ n
quotient-bound num base n h lt = (div-lt_iff_lt-mul (omega arith)).1 (omega (arith, pow-suc base n))

value-digits_loop :
    (n num base : ℕ) → 2 ≤ base → num < base ^ n → value base (digits_loop n num base) ≡ num
unfolding digits_loop value
value-digits_loop zero num base h lt = omega (arith, pow-zero base)
value-digits_loop (suc n) num base h lt = elim (Bool-cases (num == 0)) [
  | inl e ↦ rw (e, digits_loop) (ground arith)
  | inr e ↦
      rw (e, digits_loop)
        (ap (λ q. num % base + base * q)
            (value-digits_loop n (num / base) base h (quotient-bound num base n h lt))
          ∙ mod-add-div num base)
]

AreDigits-digits_loop : (n num base : ℕ) → 2 ≤ base → AreDigits base (digits_loop n num base)
unfolding digits_loop AreDigits
AreDigits-digits_loop zero num base h = omega arith
AreDigits-digits_loop (suc n) num base h = elim (Bool-cases (num == 0)) [
  | inl e ↦ rw (e, digits_loop) (omega arith)
  | inr e ↦
      rw (e, digits_loop) (mod-lt num (omega arith), AreDigits-digits_loop n (num / base) base h)
]

-- A uint64_t has at most 64 digits in any base.
word-bound : (num base : ℕ) → 2 ≤ base → num < 2 ^ 64 → num < base ^ 72
word-bound num base h lt = omega (arith, pow-le-pow_left h 72)

-- The digits that `number` works out of a uint64_t stand for it in the base, and each is below the
-- base: the 72 places of `tmp` are enough.
pub digits_of_lem :
    (num base : ℕ)
    → 2 ≤ base
    → num < 2 ^ 64
    → (value base (digits_of num base) ≡ num) × AreDigits base (digits_of num base)
unfolding digits_of value AreDigits
digits_of_lem num base h lt = elim (Bool-cases (num == 0)) [
  | inl e ↦ rw (e, digits_of) (ground arith, (omega arith, omega arith))
  | inr e ↦
      rw (e, digits_of)
        (
          value-digits_loop 72 num base h (word-bound num base h lt),
          AreDigits-digits_loop 72 num base h,
        )
]

-- `k` digits are needed for a number: one for 0.
pub record NeedsDigits (base num k : ℕ) : Type 0 where
  pub some_digit : 0 < k
  pub enough : num < base ^ k
  pub needed : (k ≡ 1) ⊎ (base ^ (k - 1) ≤ num)

length-digits_loop :
    (n k num base : ℕ)
    → 2 ≤ base
    → k ≤ n
    → num < base ^ k
    → (k ≡ 0) ⊎ (base ^ (k - 1) ≤ num)
    → length (digits_loop n num base) ≡ k
unfolding digits_loop
length-digits_loop zero k num base h few lt needed = omega arith
length-digits_loop (suc n) zero num base h few lt needed =
    let nothing : (num == 0) ≡ true = ground (arith, pow-zero base) in
    rw (nothing, digits_loop) refl
length-digits_loop (suc n) (suc k) num base h few lt (inl none_needed) = absurd (omega arith)
length-digits_loop (suc n) (suc k) num base h few lt (inr needed) =
    let down : suc k - 1 ≡ k = omega arith in
    let least : base ^ k ≤ num = omega (arith, ap (λ j. base ^ j) down) in
    let some_left : (num == 0) ≡ false = ground (arith, one-le-pow k base (omega arith)) in
    rw (some_left, digits_loop)
      (ap suc (
        length-digits_loop n k (num / base) base h (omega arith) (quotient-bound num base k h lt)
          (quotient-needs k num base h least)))
  where
    quotient-needs :
        (k num base : ℕ) → 2 ≤ base → base ^ k ≤ num → (k ≡ 0) ⊎ (base ^ (k - 1) ≤ num / base)
    quotient-needs zero num base h least = inl refl
    quotient-needs (suc j) num base h least =
        let down : suc j - 1 ≡ j = omega arith in
        inr (
          subst (λ i. base ^ i ≤ num / base) (sym down)
            ((le-div_iff_mul-le (omega arith)).1 (omega (arith, pow-suc base j))))

-- A uint64_t needs at most 64 digits.
pub needed-le : (base num k : ℕ) → 2 ≤ base → num < 2 ^ 64 → NeedsDigits base num k → k ≤ 64
needed-le base num k h word needs = elim needs.needed [
  | inl one ↦ omega arith
  | inr least ↦ elim (dec_lt 64 k) [
    | no few ↦ omega arith
    | yes many ↦ absurd (
        omega (
          arith,
          pow-le-pow_left h (k - 1),
          pow-le-pow_right {n = 2} (omega arith) {i = 64} {j = k - 1} (omega arith),
        ))
  ]
]

-- `number` works out no more digits than are needed.
pub length-digits_of :
    (num base k : ℕ)
    → 2 ≤ base
    → num < 2 ^ 64
    → NeedsDigits base num k
    → length (digits_of num base) ≡ k
unfolding digits_of
length-digits_of num base k h word needs = elim (Bool-cases (num == 0)) [
  | inl e ↦ rw (e, digits_of) (sym (only_one (ground arith)))
  | inr e ↦
      rw (e, digits_of)
        (length-digits_loop 72 k num base h (omega (arith, needed-le base num k h word needs))
          needs.enough
          (elim needs.needed [
            | inl one ↦
                let none_behind : base ^ (k - 1) ≡ 1 =
                  ap (λ j. base ^ j) (omega arith) ∙ pow-zero base in
                inr (ground (arith, none_behind))
            | inr least ↦ inr least
          ]))
]
  where
    only_one : num ≡ 0 → k ≡ 1
    only_one nothing = elim needs.needed [
      | inl one ↦ one
      | inr least ↦ absurd (omega (arith, one-le-pow (k - 1) base (omega arith)))
    ]
