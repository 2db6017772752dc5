-- ===== src/Memory/E820/Tests.antt =====
-- The preparation of the memory manager on a map of three entries.
use knos.Base.{
  ℕ, ◌+◌, ◌*◌, ◌≤◌, ◌<◌, ◌≡◌, refl, true, false, some, get_elem?, List, [], ◌∷◌, ok, arith, length,
  if◌then◌else◌,
}
use knos.Memory.{Page}
use knos.Memory.Bitmap.Laws.{marked}
use knos.Memory.E820.{E820Entry, Totals, prepare}
use knos.Memory.E820.Reserved.{AreNamed, new_page, reserves, is_reserved, top_pfn, prepare_lem}

abbrev entry : ℕ → ℕ → ℕ → E820Entry
entry low len kind = record {
  base_addr_low = low;
  base_addr_high = 0;
  length_low = len;
  length_high = 0;
  entry_type = kind;
}

-- 8 MB of RAM, 4 MB that is reserved, 4 MB of RAM.
abbrev firmware : List E820Entry
firmware = entry 0 0x800000 1 ∷ entry 0x800000 0x400000 2 ∷ entry 0xC00000 0x400000 1 ∷ []

prepare_lem_example :
    (t : Totals) × (words : List ℕ) × (pages : List Page) × (prepare firmware
      ≡ ok (t, (words, pages)))
    × (t.max_pfn ≡ top_pfn firmware)
    × (64 * length words < t.max_pfn + 1 + 64)
    × (t.max_pfn < 64 * length words)
    × ((q : ℕ) → marked words q ≡ (if is_reserved firmware q then 1 else 0))
    × (length pages ≡ t.max_pfn + 1)
    × ((i : ℕ) → i ≤ t.max_pfn → get_elem? pages i ≡ some (new_page i))
unfolding AreNamed
prepare_lem_example = prepare_lem firmware (omega arith, (omega arith, (omega arith, omega arith)))

-- The pages 4 and 5 are reserved.
reserved_pages :
    (is_reserved firmware 3 ≡ false)
    × (is_reserved firmware 4 ≡ true)
    × (is_reserved firmware 5 ≡ true)
    × (is_reserved firmware 6 ≡ false)
unfolding is_reserved reserves
reserved_pages = (refl, refl, refl, refl)
