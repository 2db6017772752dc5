-- ===== src/Memory/Search/Sound.antt =====
-- What the search of `alloc_pages` finds, for requests of 1 to 64 pages.
use knos.Base.{
  ℕ, zero, suc, ◌+◌, ◌-◌, ◌*◌, ◌/◌, ◌%◌, ◌^◌, ◌≤◌, ◌<◌, ◌≡◌, ◌⊎◌, inl, inr, refl, true, false,
  bit_and, some, List, Result, ok, arith, length, get_elem?, get_elem?_of_lt, leb, ◌==◌, Bool-cases,
  ==→eq, leb→le, sym, ◌∙◌, ap,
}
use native.Mathlib.Decide.{dec_lt}
use knos.Base.Word.{add64, sub64, shl64}
use knos.Base.Bits.{bit, bit-zero}
use knos.Memory.Bitmap.Laws.{marked, marked_of_word}
use knos.Memory.Search.{
  Probe, hit, skip, words_free, probe_words, probe_word, probe_across, probe, search,
}
use knos.Memory.Search.Masks.{ones_lem, mask_iff, mask_unshifted}

-- The `n` pages from `b` on are free.
abbrev pub IsFreeRun : List ℕ → ℕ → ℕ → Type 0
IsFreeRun words b n = (k : ℕ) → k < n → marked words (b + k) ≡ 0

-- A probe that ends without a fault: either the run is free, or the search goes on, by at least one
-- page and no further than the run.
abbrev Probed : List ℕ → ℕ → ℕ → Result Probe → Type 0
Probed words nr b r =
    ((r ≡ ok hit) × IsFreeRun words b nr) ⊎ ((n : ℕ) × (r ≡ ok (skip n)) × (0 < n) × (n ≤ nr))

-- Digits `o` to `o + n - 1` of one word are the bits of the pages from `b` on.
run_of_word :
    (words : List ℕ) (b i w o n : ℕ)
    → 64 * i + o ≡ b
    → get_elem? words i ≡ some w
    → o + n ≤ 64
    → ((k : ℕ) → k < n → bit w (o + k) ≡ 0)
    → IsFreeRun words b n
run_of_word words b i w o n start e fits clear k h =
    let word : i ≡ (b + k) / 64 = omega arith in
    let digit : (b + k) % 64 ≡ o + k = omega arith in
    marked_of_word words (b + k) (rw word at e) ∙ ap (bit w) digit ∙ clear k h

-- A request of 64 pages at the start of a word.
probe_words_lem :
    (words : List ℕ) (b : ℕ)
    → b % 64 ≡ 0
    → b / 64 < length words
    → Probed words 64 b (probe_words words 64 b)
unfolding probe_words words_free
probe_words_lem words b aligned inside =
    let (w, e) = get_elem?_of_lt words (b / 64) inside in
    elim (Bool-cases (w == 0)) [
      | inl z ↦
          let w0 : w ≡ 0 = ==→eq w 0 z in
          inl (
            rw (e, w0) refl,
            run_of_word words b (b / 64) w 0 64 (omega arith) e (omega arith)
                (λ k h. rw w0 (bit-zero (0 + k))),
          )
      | inr z ↦ inr (64, ground arith, omega arith, omega arith)
    ]

pub probe_64 : (words : List ℕ) (b : ℕ) → b % 64 ≡ 0 → probe words 64 b ≡ probe_words words 64 b
unfolding probe
probe_64 words b e = rw e refl

probe_word_lem :
    (words : List ℕ) (nr b : ℕ)
    → 0 < nr
    → nr < 64
    → nr + b % 64 ≤ 64
    → b / 64 < length words
    → Probed words nr b (probe_word words nr b)
unfolding probe_word
probe_word_lem words nr b pos small fits inside =
    let (w, e) = get_elem?_of_lt words (b / 64) inside in
    elim (Bool-cases (bit_and w (shl64 (2 ^ nr - 1) (b % 64)) == 0)) [
      | inl z ↦ inl (
        rw (ones_lem nr small, e, z) refl,
        run_of_word words b (b / 64) w (b % 64) nr (omega arith) e (omega arith)
            ((mask_iff w nr (b % 64) fits).0 (==→eq _ 0 z)),
      )
      | inr z ↦ inr (nr, rw (ones_lem nr small, e, z) refl, pos, omega arith)
    ]

-- The run ends in the next word: `r` of its pages lie in the first, the others at the start of the
-- second.
run_of_words :
    (words : List ℕ) (b nr : ℕ)
    → nr ≤ 64
    → IsFreeRun words b (64 - b % 64)
    → IsFreeRun words (64 * (b / 64 + 1)) (nr - (64 - b % 64))
    → IsFreeRun words b nr
run_of_words words b nr small low high k h = elim (dec_lt k (64 - b % 64)) [
  | yes p ↦ low k p
  | no p ↦
      let next : 64 * (b / 64 + 1) + (k - (64 - b % 64)) ≡ b + k = omega arith in
      ap (marked words) (sym next) ∙ high (k - (64 - b % 64)) (omega arith)
]

probe_across_lem :
    (words : List ℕ) (nr b : ℕ)
    → nr ≤ 64
    → 0 < b % 64
    → 64 < nr + b % 64
    → b / 64 + 1 < length words
    → Probed words nr b (probe_across words nr b)
unfolding probe_across
probe_across_lem words nr b small off long inside =
    let (w, e) = get_elem?_of_lt words (b / 64) (omega arith) in
    let (v, e') = get_elem?_of_lt words (b / 64 + 1) inside in
    let r : ℕ = 64 - b % 64 in
    let r_small : r < 64 = omega arith in
    let h_small : nr - r < 64 = omega arith in
    let unshifted : shl64 (2 ^ (nr - r) - 1) 0 ≡ 2 ^ (nr - r) - 1 =
      mask_unshifted (nr - r) h_small in
    elim (Bool-cases (bit_and w (shl64 (2 ^ r - 1) (b % 64)) == 0)) [
      | inr z ↦ inr (
        r,
        rw (ones_lem r r_small, ones_lem (nr - r) h_small, e, z) refl,
        omega arith,
        omega arith,
      )
      | inl z ↦ elim (Bool-cases (bit_and v (2 ^ (nr - r) - 1) == 0)) [
        | inr z' ↦ inr (
          r,
          rw (ones_lem r r_small, ones_lem (nr - r) h_small, e, z, e', z') refl,
          omega arith,
          omega arith,
        )
        | inl z' ↦ inl (
          rw (ones_lem r r_small, ones_lem (nr - r) h_small, e, z, e', z') refl,
          run_of_words words b nr small
              (run_of_word words b (b / 64) w (b % 64) r (omega arith) e (omega arith)
                ((mask_iff w r (b % 64) (omega arith)).0 (==→eq _ 0 z)))
              (run_of_word words (64 * (b / 64 + 1)) (b / 64 + 1) v 0 (nr - r) (omega arith) e'
                (omega arith)
                ((mask_iff v (nr - r) 0 (omega arith)).0
                  (ap (bit_and v) unshifted ∙ ==→eq _ 0 z'))),
        )
      ]
    ]

pub probe_lem :
    (words : List ℕ) (nr b : ℕ)
    → 0 < nr
    → nr ≤ 64
    → b + nr ≤ 64 * length words
    → Probed words nr b (probe words nr b)
unfolding probe
probe_lem words nr b pos small inside = elim (dec_lt (nr + b % 64) 65) [
  | no long ↦
      let e : probe words nr b ≡ probe_across words nr b = ground arith in
      rw e (probe_across_lem words nr b small (omega arith) (omega arith) (omega arith))
  | yes short ↦ elim (dec_lt nr 64) [
    | yes few ↦
        let e : probe words nr b ≡ probe_word words nr b = ground arith in
        rw e (probe_word_lem words nr b pos few (omega arith) (omega arith))
    | no many ↦
        let e : nr ≡ 64 = omega arith in
        rw e (
          rw (probe_64 words b (omega arith)) (probe_words_lem words b (omega arith) (omega arith)))
  ]
]

-- One round of the search.
module _ (words : List ℕ) (zone_end nr fuel b : ℕ) where
  search_stop : leb b (sub64 zone_end nr) ≡ false → search words zone_end nr (suc fuel) b ≡ ok 0
  unfolding search
  search_stop stop = rw (stop, search)

  pub search_hit :
      leb b (sub64 zone_end nr) ≡ true
      → probe words nr b ≡ ok hit
      → search words zone_end nr (suc fuel) b ≡ ok b
  unfolding search
  search_hit go e = rw (go, search, e)

  search_skip :
      (n : ℕ)
      → leb b (sub64 zone_end nr) ≡ true
      → probe words nr b ≡ ok (skip n)
      → search words zone_end nr (suc fuel) b ≡ search words zone_end nr fuel (add64 b n)
  unfolding search
  search_skip n go e = rw (go, search, e)

pub search_lem :
    (words : List ℕ) (zone_start zone_end nr : ℕ)
    → 0 < nr
    → nr ≤ 64
    → nr ≤ zone_end
    → zone_end ≤ 64 * length words
    → 64 * length words < 2 ^ 64
    → (fuel b : ℕ) → zone_start ≤ b
    → b ≤ 64 * length words
    → 64 * length words < fuel + b
    → (r : ℕ) × (search words zone_end nr fuel b ≡ ok r)
      × ((r ≡ 0) ⊎ ((zone_start ≤ r) × (r + nr ≤ zone_end) × IsFreeRun words r nr))
search_lem words zone_start zone_end nr pos small fits covered sane zero b above below enough =
    absurd (omega arith)
search_lem words zone_start zone_end nr pos small fits covered sane (suc fuel) b above below
      enough =
    elim (Bool-cases (leb b (sub64 zone_end nr))) [
      | inr stop ↦ (0, search_stop words zone_end nr fuel b stop, inl refl)
      | inl go ↦
          let room : b + nr ≤ zone_end = omega (arith, leb→le _ _ go) in
          elim (probe_lem words nr b pos small (omega arith)) [
            | inl (e, free) ↦ (b, search_hit words zone_end nr fuel b go e, inr (above, room, free))
            | inr (n, e, forward, within) ↦
                let next : add64 b n ≡ b + n = omega arith in
                let (r, found, good) =
                  search_lem words zone_start zone_end nr pos small fits covered sane fuel (b + n)
                    (omega arith) (omega arith) (omega arith) in
                (
                  r,
                  search_skip words zone_end nr fuel b n go e
                      ∙ ap (search words zone_end nr fuel) next
                      ∙ found,
                  good,
                )
          ]
    ]
