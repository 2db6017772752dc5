-- ===== src/Base/Bits.antt =====
-- The binary digits of a number, and what `&`, `|`, `~` and `<<` do to each.
mod Lowest
use Prim.Native.Nat.{
  ℕ, zero, suc, ◌+◌, ◌-◌, ◌*◌, ◌/◌, ◌%◌, ◌^◌, ◌≤◌, ◌<◌, min, max, bit_and, bit_or,
}
use mathlib.Core.Path.{◌≡◌, refl, ap, sym, ◌∙◌}
use mathlib.Core.Logic.{◌≢◌}
use native.Mathlib.Nat.{
  pow-suc, one-le-pow, mul_assoc, div-add-mod, mod-lt, mod-eq_of_lt, mul-add-mod_self_left,
}
use native.Mathlib.Omega.{arith}
use Lowest.{bit_and_low, half-bit_and, bit_or_low, half-bit_or}

-- Digit `k` of `w`, 0 or 1.
unfoldable pub bit : ℕ → ℕ → ℕ
bit w zero = w % 2
bit w (suc k) = bit (w / 2) k

pub bit-le-one : (w k : ℕ) → bit w k ≤ 1
unfolding bit
bit-le-one w zero = omega arith
bit-le-one w (suc k) = bit-le-one (w / 2) k

pub bit-bit_or : (a b k : ℕ) → bit (bit_or a b) k ≡ max (bit a k) (bit b k)
unfolding bit
bit-bit_or a b zero = bit_or_low a b
bit-bit_or a b (suc k) = rw (half-bit_or a b) (bit-bit_or (a / 2) (b / 2) k)

pub bit-bit_and : (a b k : ℕ) → bit (bit_and a b) k ≡ min (bit a k) (bit b k)
unfolding bit
bit-bit_and a b zero = bit_and_low a b
bit-bit_and a b (suc k) = rw (half-bit_and a b) (bit-bit_and (a / 2) (b / 2) k)

pub bit-zero : (k : ℕ) → bit 0 k ≡ 0
unfolding bit
bit-zero zero = refl
bit-zero (suc k) = bit-zero k

-- Two numbers with the same digits are equal.
eq_of_bits_below : (f a b : ℕ) → a ≤ f → b ≤ f → ((k : ℕ) → bit a k ≡ bit b k) → a ≡ b
unfolding bit
eq_of_bits_below zero a b p q h = omega arith
eq_of_bits_below (suc f) a b p q h =
    omega
      (arith, h 0, eq_of_bits_below f (a / 2) (b / 2) (omega arith) (omega arith) (λ k. h (suc k)))

pub eq_of_bits : (a b : ℕ) → ((k : ℕ) → bit a k ≡ bit b k) → a ≡ b
eq_of_bits a b = eq_of_bits_below (a + b) a b (omega arith) (omega arith)

double : (w o : ℕ) → w * 2 ^ suc o ≡ 2 * (w * 2 ^ o)
double w o = omega (arith, ap (λ (t : ℕ). w * t) (pow-suc 2 o))

-- `w << o`: the low `o` digits are 0, and digit `k` of `w` moves to `o + k`.
pub bit-shift : (w o k : ℕ) → bit (w * 2 ^ o) (o + k) ≡ bit w k
unfolding bit
bit-shift w zero k =
    let e : w * 2 ^ 0 ≡ w = omega arith in let e' : 0 + k ≡ k = omega arith in rw (e, e')
bit-shift w (suc o) k =
    let e : w * 2 ^ suc o / 2 ≡ w * 2 ^ o = omega (arith, double w o) in
    let e' : suc o + k ≡ suc (o + k) = omega arith in rw (e', bit, e) (bit-shift w o k)

pub bit-shift_low : (w o k : ℕ) → k < o → bit (w * 2 ^ o) k ≡ 0
unfolding bit
bit-shift_low w zero k h = elim h [ ]
bit-shift_low w (suc o) zero h = omega (arith, double w o)
bit-shift_low w (suc o) (suc k) h =
    let e : w * 2 ^ suc o / 2 ≡ w * 2 ^ o = omega (arith, double w o) in
    rw e (bit-shift_low w o k (omega arith))

-- A number below `2 ^ n` has no digit from `n` on.
pub bit_above : (n w k : ℕ) → w < 2 ^ n → n ≤ k → bit w k ≡ 0
unfolding bit
bit_above zero w k h p = let e : w ≡ 0 = omega arith in rw e (bit-zero k)
bit_above (suc n) w zero h p = elim p [ ]
bit_above (suc n) w (suc k) h p = bit_above n (w / 2) k (omega (arith, pow-suc 2 n)) (omega arith)

-- The complement in `n` digits.
pub bit_complement : (n w k : ℕ) → w < 2 ^ n → k < n → bit (2 ^ n - 1 - w) k ≡ 1 - bit w k
unfolding bit
bit_complement zero w k h p = elim p [ ]
bit_complement (suc n) w zero h p = omega (arith, pow-suc 2 n)
bit_complement (suc n) w (suc k) h p =
    let e : (2 ^ suc n - 1 - w) / 2 ≡ 2 ^ n - 1 - w / 2 = omega (arith, pow-suc 2 n) in
    rw e (bit_complement n (w / 2) k (omega (arith, pow-suc 2 n)) (omega arith))

-- A mask of `n` ones.
pub bit-ones : (n k : ℕ) → k < n → bit (2 ^ n - 1) k ≡ 1
bit-ones n k h = omega (
  arith,
  bit_complement n 0 k (omega (arith, one-le-pow n 2)) h,
  bit-zero k,
  ap (λ (t : ℕ). bit t k) (let e : 2 ^ n - 1 - 0 ≡ 2 ^ n - 1 = omega arith in e),
)

pub bit-pow_self : (j : ℕ) → bit (2 ^ j) j ≡ 1
unfolding bit
bit-pow_self zero = refl
bit-pow_self (suc j) =
    let e : 2 ^ suc j / 2 ≡ 2 ^ j = omega (arith, pow-suc 2 j) in rw e (bit-pow_self j)

pub bit-pow_ne : (j k : ℕ) → j ≢ k → bit (2 ^ j) k ≡ 0
unfolding bit
bit-pow_ne zero zero h = absurd (h refl)
bit-pow_ne zero (suc k) h = bit-zero k
bit-pow_ne (suc j) zero h = omega (arith, pow-suc 2 j)
bit-pow_ne (suc j) (suc k) h =
    let e : 2 ^ suc j / 2 ≡ 2 ^ j = omega (arith, pow-suc 2 j) in
    rw e (bit-pow_ne j k (λ p. h (ap suc p)))

-- `a & (2 ^ k - 1)` keeps the low `k` digits.
mod-double : (a m : ℕ) → 0 < m → a % (2 * m) ≡ 2 * (a / 2 % m) + a % 2
mod-double a m pos =
    let split : a ≡ 2 * m * (a / 2 / m) + (2 * (a / 2 % m) + a % 2) =
      omega (arith, div-add-mod (a / 2) m, mul_assoc 2 m (a / 2 / m)) in
    let fits : 2 * (a / 2 % m) + a % 2 < 2 * m = omega (arith, mod-lt (a / 2) pos) in
    ap (λ x. x % (2 * m)) split
    ∙ mul-add-mod_self_left (2 * m) (a / 2 / m) (2 * (a / 2 % m) + a % 2)
    ∙ mod-eq_of_lt fits

pub bit_and-ones : (k a : ℕ) → bit_and a (2 ^ k - 1) ≡ a % 2 ^ k
bit_and-ones zero a =
    eq_of_bits (bit_and a 0) 0 (λ j. omega (arith, bit-bit_and a 0 j, bit-zero j)) ∙ omega arith
bit_and-ones (suc k) a =
    let double : 2 ^ suc k ≡ 2 * 2 ^ k = omega (arith, pow-suc 2 k) in
    let ones_half : (2 ^ suc k - 1) / 2 ≡ 2 ^ k - 1 = omega (arith, double, one-le-pow k 2) in
    let half : bit_and a (2 ^ suc k - 1) / 2 ≡ a / 2 % 2 ^ k =
      half-bit_and a (2 ^ suc k - 1) ∙ ap (bit_and (a / 2)) ones_half ∙ bit_and-ones k (a / 2) in
    let low : bit_and a (2 ^ suc k - 1) % 2 ≡ a % 2 =
      bit_and_low a (2 ^ suc k - 1) ∙ omega (arith, double, one-le-pow k 2) in
    let target : a % 2 ^ suc k ≡ 2 * (a / 2 % 2 ^ k) + a % 2 =
      ap (λ (m : ℕ). a % m) double ∙ mod-double a (2 ^ k) (one-le-pow k 2 (omega arith)) in
    omega (arith, half, low, target)

-- `&` with a mask of one digit.
pub bit_and_one : (a : ℕ) → bit_and a 1 ≡ a % 2
bit_and_one a = bit_and-ones 1 a

pub bit_and_two : (a : ℕ) → bit_and a 2 ≡ 2 * (a / 2 % 2)
bit_and_two a = omega (arith, half-bit_and a 2, bit_and_one (a / 2), bit_and_low a 2)

pub bit_and_four : (a : ℕ) → bit_and a 4 ≡ 4 * (a / 4 % 2)
bit_and_four a = omega (arith, half-bit_and a 4, bit_and_two (a / 2), bit_and_low a 4)

bit_or_left_zero : (b : ℕ) → bit_or 0 b ≡ b
bit_or_left_zero b = eq_of_bits (bit_or 0 b) b (λ k. bit-bit_or 0 b k ∙ omega (arith, bit-zero k))

-- `|` of numbers that share no digit is their sum.
pub bit_or-add : (o a b : ℕ) → a < 2 ^ o → bit_or a (b * 2 ^ o) ≡ a + b * 2 ^ o
bit_or-add zero a b h =
    let none_low : a ≡ 0 = omega arith in rw none_low (bit_or_left_zero (b * 2 ^ 0) ∙ omega arith)
bit_or-add (suc o) a b h =
    let double : b * 2 ^ suc o ≡ b * 2 ^ o * 2 =
      ap (λ p. b * p) (pow-suc 2 o) ∙ sym (mul_assoc b (2 ^ o) 2) in
    let rest = bit_or-add o (a / 2) b (omega (arith, pow-suc 2 o)) in
    let half = half-bit_or a (b * 2 ^ suc o) in
    let low = bit_or_low a (b * 2 ^ suc o) in
    let halved : b * 2 ^ suc o / 2 ≡ b * 2 ^ o = omega (arith, double) in
    omega (arith, double, half ∙ ap (bit_or (a / 2)) halved, low, rest)
