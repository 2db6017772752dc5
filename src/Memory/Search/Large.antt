-- ===== src/Memory/Search/Large.antt =====
-- The search of `alloc_pages` for more than 64 pages, from the start of a word.
use knos.Base.{
  ℕ, zero, suc, ◌+◌, ◌*◌, ◌/◌, ◌%◌, ◌≤◌, ◌<◌, ◌≡◌, ◌≢◌, refl, ◌∙◌, ap, true, some, List, ok, arith,
  get_elem?, leb,
}
use knos.Memory.Bitmap.Laws.{marked}
use knos.Memory.Search.{hit, words_free, probe_words, probe}
use knos.Memory.Search.Sound.{IsFreeRun}

abbrev ZeroWords : List ℕ → ℕ → ℕ → Type 0
ZeroWords words i n = (j : ℕ) → j < n → get_elem? words (i + j) ≡ some 0

words_free_zero : (words : List ℕ) (n i : ℕ) → ZeroWords words i n → words_free words i n ≡ ok true
unfolding words_free
words_free_zero words zero i zeros = refl
words_free_zero words (suc n) i zeros =
    let e : i + 0 ≡ i = omega arith in
    let here : get_elem? words i ≡ some 0 =
      ap (get_elem? words) (omega arith) ∙ zeros 0 (omega arith) in
    rw here (
      words_free_zero words n (i + 1)
        (λ j h. ap (get_elem? words) (omega arith) ∙ zeros (suc j) (omega arith)))

-- For a request of more than 64 pages that is no multiple of 64, only the whole words are looked at:
-- at the start of a word, behind whole words that are free, the search accepts the run although the
-- page behind those words is taken.
pub probe_ignores_rest :
    (words : List ℕ) (nr b : ℕ)
    → 64 ≤ nr
    → nr % 64 ≢ 0
    → b % 64 ≡ 0
    → ZeroWords words (b / 64) (nr / 64)
    → marked words (b + nr / 64 * 64) ≡ 1
    → (probe words nr b ≡ ok hit) × (¬ IsFreeRun words b nr)
unfolding probe probe_words
probe_ignores_rest words nr b large rest aligned zeros taken = (
  let test : leb 64 nr ≡ true = ground arith in
      rw (test, aligned, words_free_zero words (nr / 64) (b / 64) zeros) refl,
  λ free. omega (arith, free (nr / 64 * 64) (omega arith), taken),
)
