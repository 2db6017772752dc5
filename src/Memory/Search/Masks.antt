-- ===== src/Memory/Search/Masks.antt =====
-- What the masks of the search see: `w & (((1UL << n) - 1) << o)` is 0 exactly if the digits
-- `o` to `o + n - 1` of `w` are.
use native.Mathlib.Nat.{mul-lt-mul_of_pos_right, pow-suc, one-le-pow, pow-le-pow_right}
use native.Mathlib.Decide.{dec_lt}
use knos.Base.{
  ℕ, zero, suc, ◌+◌, ◌-◌, ◌*◌, ◌^◌, ◌≤◌, ◌<◌, ◌≡◌, ◌↔◌, min, bit_and, ok, arith, ap, ◌∙◌, sym,
}
use knos.Base.Word.{shl64}
use knos.Base.Bits.{
  bit, bit-zero, bit-le-one, bit-bit_and, bit-shift, bit-shift_low, bit-ones, bit_above, eq_of_bits,
}
use knos.Memory.Bitmap.Laws.{shl64-one}
use knos.Memory.Search.{ones}

two-pow-add : (n o : ℕ) → 2 ^ n * 2 ^ o ≡ 2 ^ (n + o)
two-pow-add zero o = let e : 0 + o ≡ o = omega arith in rw e (omega arith)
two-pow-add (suc n) o =
    let e : suc n + o ≡ suc (n + o) = omega arith in
    rw e
      (omega (arith, ap (λ (t : ℕ). t * 2 ^ o) (pow-suc 2 n), pow-suc 2 (n + o), two-pow-add n o))

pub ones_lem : (n : ℕ) → n < 64 → ones n ≡ ok (2 ^ n - 1)
unfolding ones
ones_lem n h = rw (shl64-one n h) (ground arith)

-- The mask is not cut off at the word's end.
mask_fits : (n o : ℕ) → n + o ≤ 64 → shl64 (2 ^ n - 1) o ≡ (2 ^ n - 1) * 2 ^ o
mask_fits n o h = omega (
  arith,
  two-pow-add n o,
  one-le-pow n 2,
  mul-lt-mul_of_pos_right {m = 2 ^ n - 1} {n = 2 ^ n} {k = 2 ^ o} (omega (arith, one-le-pow n 2))
      (one-le-pow o 2 (omega arith)),
  pow-le-pow_right {n = 2} (omega arith) {i = n + o} {j = 64} h,
)

pub mask_unshifted : (n : ℕ) → n < 64 → shl64 (2 ^ n - 1) 0 ≡ 2 ^ n - 1
mask_unshifted n h = mask_fits n 0 (omega arith) ∙ omega arith

module _ (w n o : ℕ) (fits : n + o ≤ 64) where
  abbrev mask : ℕ
  mask = shl64 (2 ^ n - 1) o

  clear_of_mask : bit_and w mask ≡ 0 → (k : ℕ) → k < n → bit w (o + k) ≡ 0
  clear_of_mask e k h =
      let seen : bit mask (o + k) ≡ 1 =
        rw (mask_fits n o fits, bit-shift (2 ^ n - 1) o k) (bit-ones n k h) in
      let none_left : bit (bit_and w mask) (o + k) ≡ 0 = rw e (bit-zero (o + k)) in
      omega (arith, seen, none_left, bit-bit_and w mask (o + k), bit-le-one w (o + k))

  mask_above : (k : ℕ) → o + n ≤ k → bit mask k ≡ 0
  mask_above k h =
      let e : k ≡ o + (k - o) = omega arith in
      rw (mask_fits n o fits, e, bit-shift (2 ^ n - 1) o (k - o))
        (bit_above n (2 ^ n - 1) (k - o) (omega (arith, one-le-pow n 2)) (omega arith))

  mask_of_clear : ((k : ℕ) → k < n → bit w (o + k) ≡ 0) → bit_and w mask ≡ 0
  mask_of_clear clear =
      eq_of_bits (bit_and w mask) 0 λ k. rw (bit-bit_and w mask k, bit-zero k) (each k)
    where
      low : (k : ℕ) → k < o → bit mask k ≡ 0
      low k h = rw (mask_fits n o fits) (bit-shift_low (2 ^ n - 1) o k h)

      inside : (k : ℕ) → o ≤ k → k < o + n → bit w k ≡ 0
      inside k h p =
          let e : o + (k - o) ≡ k = omega arith in ap (bit w) (sym e) ∙ clear (k - o) (omega arith)

      each : (k : ℕ) → min (bit w k) (bit mask k) ≡ 0
      each k = elim (dec_lt k o) [
        | yes h ↦ omega (arith, low k h)
        | no h ↦ elim (dec_lt k (o + n)) [
          | yes p ↦ omega (arith, inside k (omega arith) p)
          | no p ↦ omega (arith, mask_above k (omega arith))
        ]
      ]

  -- The test of the code, both ways.
  pub mask_iff : (bit_and w (shl64 (2 ^ n - 1) o) ≡ 0) ↔ ((k : ℕ) → k < n → bit w (o + k) ≡ 0)
  mask_iff = (clear_of_mask, mask_of_clear)
