-- ===== src/Memory/Search/Hit.antt =====
-- The masks of the search against the plain meaning: a request of 1 to 64 pages is met at a page just
-- if the pages from there on are free.
use native.Mathlib.Decide.{dec_lt}
use mathlib.Core.Path.{subst}
use knos.Base.{
  ok-injective, ℕ, suc, ◌+◌, ◌-◌, ◌*◌, ◌/◌, ◌%◌, ◌^◌, ◌≤◌, ◌<◌, ◌≡◌, ◌↔◌, inl, inr, refl, sym, ◌∙◌,
  ap, true, bit_and, some, List, ok, arith, length, get_elem?, get_elem?_of_lt, ◌==◌,
}
use knos.Base.Word.{shl64}
use knos.Base.Bits.{bit, eq_of_bits, bit-zero, bit_above}
use knos.Memory.Bitmap.Laws.{marked, marked_of_word}
use knos.Memory.Search.{hit, words_free, probe_words, probe_word, probe_across, probe, search}
use knos.Memory.Search.Masks.{ones_lem, mask_iff, mask_unshifted}
use knos.Memory.Search.Sound.{IsFreeRun, probe_lem, probe_64, search_hit}

-- The bits of free pages are digits of their word.
word_of_run :
    (words : List ℕ) (b i w o n : ℕ)
    → 64 * i + o ≡ b
    → get_elem? words i ≡ some w
    → o + n ≤ 64
    → IsFreeRun words b n
    → (k : ℕ) → k < n
    → bit w (o + k) ≡ 0
word_of_run words b i w o n start e fits free k h =
    let word : i ≡ (b + k) / 64 = omega arith in
    let digit : (b + k) % 64 ≡ o + k = omega arith in
    ap (bit w) (sym digit) ∙ (sym (marked_of_word words (b + k) (rw word at e)) ∙ free k h)

-- So the test of the code succeeds.
mask_of_run :
    (words : List ℕ) (b i w o n : ℕ)
    → 64 * i + o ≡ b
    → get_elem? words i ≡ some w
    → o + n ≤ 64
    → IsFreeRun words b n
    → (bit_and w (shl64 (2 ^ n - 1) o) == 0) ≡ true
mask_of_run words b i w o n start e fits free =
    let zero_and =
      (mask_iff w n o (omega arith)).1 (word_of_run words b i w o n start e fits free) in
    rw zero_and refl

module _ (words : List ℕ) (nr b : ℕ) (free : IsFreeRun words b nr) where
  probe_word_free :
      nr < 64 → nr + b % 64 ≤ 64 → b / 64 < length words → probe_word words nr b ≡ ok hit
  unfolding probe_word
  probe_word_free small fits inside =
      let (w, e) = get_elem?_of_lt words (b / 64) inside in
      let clear = mask_of_run words b (b / 64) w (b % 64) nr (omega arith) e (omega arith) free in
      rw (ones_lem nr small, e, clear) refl

  -- The part of the run in the first word, and the part in the next.
  low_free : 64 < nr + b % 64 → IsFreeRun words b (64 - b % 64)
  low_free long k h = free k (omega arith)

  high_free : 64 < nr + b % 64 → IsFreeRun words (64 * (b / 64 + 1)) (nr - (64 - b % 64))
  high_free long k h =
      let next : 64 * (b / 64 + 1) + k ≡ b + (64 - b % 64 + k) = omega arith in
      ap (marked words) next ∙ free (64 - b % 64 + k) (omega arith)

  probe_across_free :
      nr ≤ 64
      → 0 < b % 64
      → 64 < nr + b % 64
      → b / 64 + 1 < length words
      → probe_across words nr b ≡ ok hit
  unfolding probe_across
  probe_across_free small off long inside =
      let r : ℕ = 64 - b % 64 in
      let (w, e) = get_elem?_of_lt words (b / 64) (omega arith) in
      let (v, e') = get_elem?_of_lt words (b / 64 + 1) inside in
      let unshifted : shl64 (2 ^ (nr - r) - 1) 0 ≡ 2 ^ (nr - r) - 1 =
        mask_unshifted (nr - r) (omega arith) in
      let low =
        mask_of_run words b (b / 64) w (b % 64) r (omega arith) e (omega arith) (low_free long) in
      let high : (bit_and v (2 ^ (nr - r) - 1) == 0) ≡ true =
        ap (λ m. bit_and v m == 0) (sym unshifted)
        ∙ mask_of_run words (64 * (b / 64 + 1)) (b / 64 + 1) v 0 (nr - r) (omega arith) e'
            (omega arith) (high_free long) in
      rw (ones_lem r (omega arith), ones_lem (nr - r) (omega arith), e, low, e', high) refl

-- The bitmap is an array of uint64_t.
unfoldable pub AreWords : List ℕ → Type 0
AreWords words = (i w : ℕ) → get_elem? words i ≡ some w → w < 2 ^ 64

-- A whole word is free just if it is 0.
zero_of_digits : (w : ℕ) → w < 2 ^ 64 → ((k : ℕ) → k < 64 → bit w (0 + k) ≡ 0) → w ≡ 0
zero_of_digits w small digits = eq_of_bits w 0 (λ k. elim (dec_lt k 64) [
  | yes low ↦ ap (bit w) (omega arith) ∙ (digits k low ∙ sym (bit-zero k))
  | no high ↦ bit_above 64 w k small (omega arith) ∙ sym (bit-zero k)
])

probe_words_free :
    (words : List ℕ) (b : ℕ)
    → AreWords words
    → IsFreeRun words b 64
    → b % 64 ≡ 0
    → b / 64 < length words
    → probe_words words 64 b ≡ ok hit
unfolding probe_words words_free AreWords
probe_words_free words b sane free aligned inside =
    let (w, e) = get_elem?_of_lt words (b / 64) inside in
    let digits = word_of_run words b (b / 64) w 0 64 (omega arith) e (omega arith) free in
    let w0 : w ≡ 0 = zero_of_digits w (sane (b / 64) w e) digits in rw (e, w0) refl

probe_free :
    (words : List ℕ) (nr b : ℕ)
    → AreWords words
    → 0 < nr
    → nr ≤ 64
    → b + nr ≤ 64 * length words
    → IsFreeRun words b nr
    → probe words nr b ≡ ok hit
unfolding probe
probe_free words nr b sane pos small inside free = elim (dec_lt (nr + b % 64) 65) [
  | no long ↦
      let e : probe words nr b ≡ probe_across words nr b = ground arith in
      e ∙ probe_across_free words nr b free small (omega arith) (omega arith) (omega arith)
  | yes short ↦ elim (dec_lt nr 64) [
    | yes few ↦
        let e : probe words nr b ≡ probe_word words nr b = ground arith in
        e ∙ probe_word_free words nr b free few (omega arith) (omega arith)
    | no many ↦
        let e : nr ≡ 64 = omega arith in
        ap (λ n. probe words n b) e
        ∙ (probe_64 words b (omega arith)
            ∙ probe_words_free words b sane (subst (IsFreeRun words b) e free) (omega arith)
                (omega arith))
  ]
]

-- For a bitmap of 64-bit words and a run of 1 to 64 pages inside it, the tests of the code by masks
-- and whole words meet the request just if every page of the run is free.
pub probe-hit_iff :
    (words : List ℕ) (nr b : ℕ)
    → AreWords words
    → 0 < nr
    → nr ≤ 64
    → b + nr ≤ 64 * length words
    → (probe words nr b ≡ ok hit) ↔ IsFreeRun words b nr
probe-hit_iff words nr b sane pos small inside = (
  λ met. elim (probe_lem words nr b pos small inside) [
    | inl (e, free) ↦ free
    | inr (n, e, forward, within) ↦ absurd (cc (ok-injective (sym met ∙ e)))
  ],
  probe_free words nr b sane pos small inside,
)

-- The first place that the search tries is taken if it is free.
pub search_first :
    (words : List ℕ) (zone_end nr fuel b : ℕ)
    → AreWords words
    → 0 < nr
    → nr ≤ 64
    → b + nr ≤ zone_end
    → zone_end ≤ 64 * length words
    → 64 * length words < 2 ^ 64
    → IsFreeRun words b nr
    → search words zone_end nr (suc fuel) b ≡ ok b
search_first words zone_end nr fuel b sane pos small inside covered addressable free =
    search_hit words zone_end nr fuel b (ground arith)
      (probe_free words nr b sane pos small (omega arith) free)
