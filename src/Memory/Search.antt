-- ===== src/Memory/Search.antt =====
-- The search of `alloc_pages` (kernel/memory.c) for a run of free pages in the bitmap.
pub mod Masks
pub mod Sound
pub mod Hit
pub mod Large
use knos.Base.{
  ℕ, zero, suc, ◌+◌, ◌-◌, ◌*◌, ◌/◌, ◌%◌, Bool, true, false, ◌&&◌, bit_and, List, Result, ok, fault,
  no_fuel, ◌>>=◌, in_range, get_elem?, ltb, leb, ◌==◌, if◌then◌else◌,
}
use knos.Base.Word.{add64, sub64, shl64}

-- What the body of the loop finds at a bit: a free run, or how far to go on.
pub data Probe : Type 0 where
  hit : Probe
  skip : ℕ → Probe

-- `(1UL << n) - 1`. C leaves a shift by 64 or more undefined.
unfoldable pub ones : ℕ → Result ℕ
ones n = if ltb n 64 then ok (shl64 1 n - 1) else fault

-- Are the `n` words from `i` on all zero? The read stops at the first that is not.
unfoldable pub words_free : List ℕ → ℕ → ℕ → Result Bool
words_free words i zero = ok true
words_free words i (suc n) = do
  w ← in_range (get_elem? words i)
  elim (w == 0) [ true ↦ words_free words (i + 1) n | false ↦ ok false ]

-- A request of 64 pages or more at the start of a word: whole words are tested.
unfoldable pub probe_words : List ℕ → ℕ → ℕ → Result Probe
probe_words words nr_pages b = do
  found ← words_free words (b / 64) (nr_pages / 64)
  ok (if found then hit else skip (nr_pages / 64 * 64))

-- A run that lies in one word.
unfoldable pub probe_word : List ℕ → ℕ → ℕ → Result Probe
unfolding ones
probe_word words nr_pages b = do
  run ← ones nr_pages
  w ← in_range (get_elem? words (b / 64))
  ok (if bit_and w (shl64 run (b % 64)) == 0 then hit else skip nr_pages)

-- A run that goes on in the next word, which is read only if the first part is free.
unfoldable pub probe_across : List ℕ → ℕ → ℕ → Result Probe
unfolding ones
probe_across words nr_pages b = do
  let remaining = 64 - b % 64
  mask_low ← ones remaining
  mask_high ← ones (nr_pages - remaining)
  w ← in_range (get_elem? words (b / 64))
  if bit_and w (shl64 mask_low (b % 64)) == 0
      then (in_range (get_elem? words (b / 64 + 1)) >>= λ next.
          ok (if bit_and next mask_high == 0 then hit else skip remaining))
      else ok (skip remaining)

unfoldable pub probe : List ℕ → ℕ → ℕ → Result Probe
probe words nr_pages b =
    if leb 64 nr_pages && (b % 64 == 0)
    then probe_words words nr_pages b
    else if leb nr_pages (64 - b % 64)
    then probe_word words nr_pages b
    else probe_across words nr_pages b

-- The loop, with a bound on its rounds: `found_start`, which is 0 if no run was found.
unfoldable pub search : List ℕ → ℕ → ℕ → ℕ → ℕ → Result ℕ
search words zone_end nr_pages zero b = no_fuel
search words zone_end nr_pages (suc fuel) b = elim (leb b (sub64 zone_end nr_pages)) [
  | false ↦ ok 0
  | true ↦ probe words nr_pages b >>= λ p. elim p [
    | hit ↦ ok b
    | skip n ↦ search words zone_end nr_pages fuel (add64 b n)
  ]
]
