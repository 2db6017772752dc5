-- ===== src/Memory/Bitmap/Laws.antt =====
-- What setting and clearing a bit of the page bitmap do to every frame's bit.
use mathlib.Core.Path.{subst}
use native.Mathlib.Nat.{pow-le-pow_right}
use native.Mathlib.Decide.{ℕ_discrete}
use knos.Base.{
  ℕ, ◌-◌, ◌/◌, ◌%◌, ◌^◌, ◌≤◌, ◌<◌, ◌≡◌, ◌≢◌, ◌∙◌, Option, none, some, List, Result, ok, ◌>>=◌,
  in_range, >>=-ok, in_range-ok, ok-injective, sym, bit_and, bit_or, arith, length, get_elem?, set,
  get_elem?_of_lt, get_elem?-set_self, get_elem?-set_ne, length-set, lt_of_get_elem?,
}
use knos.Base.Word.{shl64, not64}
use knos.Base.Bits.{
  bit, bit-le-one, bit-bit_or, bit-bit_and, bit-pow_self, bit-pow_ne, bit_complement,
}
use knos.Memory.Bitmap.{set_bit, clear_bit}

-- Bit `b` of a word, 0 where there is no word.
abbrev pub word_bit : Option ℕ → ℕ → ℕ
word_bit none b = 0
word_bit (some w) b = bit w b

-- The bit of frame `pfn`: 1 if the frame is taken, 0 if it is free.
unfoldable pub marked : List ℕ → ℕ → ℕ
marked words pfn = word_bit (get_elem? words (pfn / 64)) (pfn % 64)

pub marked_of_word :
    (words : List ℕ) {w : ℕ} (pfn : ℕ)
    → get_elem? words (pfn / 64) ≡ some w
    → marked words pfn ≡ bit w (pfn % 64)
unfolding marked
marked_of_word words pfn e = rw e

pub marked-le-one : (words : List ℕ) (pfn : ℕ) → marked words pfn ≤ 1
unfolding marked
marked-le-one words pfn = go (get_elem? words (pfn / 64))
  where
    go : (o : Option ℕ) → word_bit o (pfn % 64) ≤ 1
    go none = omega arith
    go (some w) = bit-le-one w (pfn % 64)

pub shl64-one : (b : ℕ) → b < 64 → shl64 1 b ≡ 2 ^ b
shl64-one b h = omega (arith, pow-le-pow_right {n = 2} (omega arith) {i = b} {j = 63} (omega arith))

set_digit : (w b k : ℕ) → b < 64 → b ≢ k → bit (bit_or w (shl64 1 b)) k ≡ bit w k
set_digit w b k h ne =
    rw (shl64-one b h, bit-bit_or w (2 ^ b) k, bit-pow_ne b k ne) (omega (arith, bit-le-one w k))

set_digit_self : (w b : ℕ) → b < 64 → bit (bit_or w (shl64 1 b)) b ≡ 1
set_digit_self w b h =
    rw (shl64-one b h, bit-bit_or w (2 ^ b) b, bit-pow_self b) (omega (arith, bit-le-one w b))

mask_digit : (b k : ℕ) → b < 64 → k < 64 → bit (not64 (shl64 1 b)) k ≡ 1 - bit (2 ^ b) k
mask_digit b k h p =
    rw (shl64-one b h) (bit_complement 64 (2 ^ b) k (omega (arith, shl64-one b h)) p)

clear_digit :
    (w b k : ℕ) → b < 64 → k < 64 → b ≢ k → bit (bit_and w (not64 (shl64 1 b))) k ≡ bit w k
clear_digit w b k h p ne =
    rw (bit-bit_and w (not64 (shl64 1 b)) k, mask_digit b k h p, bit-pow_ne b k ne)
      (omega (arith, bit-le-one w k))

clear_digit_self : (w b : ℕ) → b < 64 → bit (bit_and w (not64 (shl64 1 b))) b ≡ 0
clear_digit_self w b h =
    rw (bit-bit_and w (not64 (shl64 1 b)) b, mask_digit b b h h, bit-pow_self b) (omega arith)

-- The effect of a change of one word's digit on the whole map.
module _ (words : List ℕ) (pfn : ℕ) {w : ℕ} (v : ℕ)
    (old : get_elem? words (pfn / 64) ≡ some w) where
  marked-set_self : marked (set words (pfn / 64) v) pfn ≡ bit v (pfn % 64)
  marked-set_self =
      marked_of_word (set words (pfn / 64) v) pfn
        (get_elem?-set_self words (pfn / 64) v (lt_of_get_elem? words _ w old))

  marked-set_ne :
      ((k : ℕ) → k < 64 → pfn % 64 ≢ k → bit v k ≡ bit w k)
      → (q : ℕ) → pfn ≢ q
      → marked (set words (pfn / 64) v) q ≡ marked words q
  unfolding marked
  marked-set_ne keep q ne = elim (ℕ_discrete (pfn / 64) (q / 64)) [
    | yes e ↦
        rw (← e, get_elem?-set_self words (pfn / 64) v (lt_of_get_elem? words _ w old), old)
          (keep (q % 64) (omega arith) (λ r. ne (omega arith)))
    | no d ↦ rw (get_elem?-set_ne words (pfn / 64) (q / 64) v d)
  ]

-- The outcome of writing value `b` to the bit of frame `pfn`: that bit and no other changes.
pub record IsWritten (words : List ℕ) (pfn b : ℕ) (result : List ℕ) : Type 0 where
  pub same_length : length result ≡ length words
  pub here : marked result pfn ≡ b
  pub elsewhere : (q : ℕ) → pfn ≢ q → marked result q ≡ marked words q

module _ (words : List ℕ) (pfn : ℕ) (inside : pfn / 64 < length words) where
  pub set_bit_lem : (r : List ℕ) × (set_bit words pfn ≡ ok r) × IsWritten words pfn 1 r
  unfolding set_bit
  set_bit_lem =
      let (w, e) = get_elem?_of_lt words (pfn / 64) inside in
      let v = bit_or w (shl64 1 (pfn % 64)) in
      (
        set words (pfn / 64) v,
        rw e,
        record {
          same_length = length-set words (pfn / 64) v;
          here = marked-set_self words pfn v e ∙ set_digit_self w (pfn % 64) (omega arith);
          elsewhere = marked-set_ne words pfn v e (λ k h. set_digit w (pfn % 64) k (omega arith));
        },
      )

  pub clear_bit_lem : (r : List ℕ) × (clear_bit words pfn ≡ ok r) × IsWritten words pfn 0 r
  unfolding clear_bit
  clear_bit_lem =
      let (w, e) = get_elem?_of_lt words (pfn / 64) inside in
      let v = bit_and w (not64 (shl64 1 (pfn % 64))) in
      (
        set words (pfn / 64) v,
        rw e,
        record {
          same_length = length-set words (pfn / 64) v;
          here = marked-set_self words pfn v e ∙ clear_digit_self w (pfn % 64) (omega arith);
          elsewhere =
              marked-set_ne words pfn v e (λ k h. clear_digit w (pfn % 64) k (omega arith) h);
        },
      )

-- Where a write returns, the bit was in the bitmap.
word_exists :
    (words : List ℕ) (pfn : ℕ) (f : ℕ → Result (List ℕ)) {r : List ℕ}
    → (in_range (get_elem? words (pfn / 64)) >>= f) ≡ ok r
    → pfn / 64 < length words
word_exists words pfn f e =
    let (w, found, e') = >>=-ok (in_range (get_elem? words (pfn / 64))) f e in
    lt_of_get_elem? words (pfn / 64) w (in_range-ok (get_elem? words (pfn / 64)) found)

pub set_bit_inv :
    (words : List ℕ) (pfn : ℕ) {r : List ℕ} → set_bit words pfn ≡ ok r → IsWritten words pfn 1 r
unfolding set_bit
set_bit_inv words pfn e =
    let (r', e', written) = set_bit_lem words pfn (word_exists words pfn _ e) in
    subst (IsWritten words pfn 1) (ok-injective (sym e' ∙ e)) written

pub clear_bit_inv :
    (words : List ℕ) (pfn : ℕ) {r : List ℕ} → clear_bit words pfn ≡ ok r → IsWritten words pfn 0 r
unfolding clear_bit
clear_bit_inv words pfn e =
    let (r', e', written) = clear_bit_lem words pfn (word_exists words pfn _ e) in
    subst (IsWritten words pfn 0) (ok-injective (sym e' ∙ e)) written
