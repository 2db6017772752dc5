-- ===== src/Memory/Alloc.antt =====
-- `alloc_pages` of kernel/memory.c: the choice of a zone, the search, and the marking of the pages.
pub mod Mark
pub mod Choice
pub mod Correct
pub mod Keeps
pub mod FirstFit
use knos.Base.{
  ℕ, zero, suc, ◌+◌, ◌*◌, Bool, true, false, ◌&&◌, Option, none, some, List, [], ◌∷◌, Result, ok,
  ◌>>=◌, in_range, length, get_elem?, set, leb, ◌==◌, if◌then◌else◌,
}
use knos.Base.Word.{add64, sub64}
use knos.Memory.{Zone, ZoneType, dma, dma32, normal, Manager, not_enough_pages, not_contiguous}
use knos.Memory.Bitmap.{set_bit}
use knos.Memory.Frame.{page_init}
use knos.Memory.Search.{search}

same_type : ZoneType → ZoneType → Bool
same_type dma dma = true
same_type dma32 dma32 = true
same_type normal normal = true
same_type _ _ = false

-- The first zone of the type that claims enough free pages, by its index; `i` is the index of the
-- list's head.
unfoldable pub find_zone : List Zone → ZoneType → ℕ → ℕ → Option ℕ
unfolding same_type
find_zone [] zone_type nr_pages i = none
find_zone (zone ∷ zones) zone_type nr_pages i =
    if same_type zone.zone_type zone_type && leb nr_pages zone.nr_free
    then some i
    else find_zone zones zone_type nr_pages (i + 1)

-- The marking loop from round `i`, with `left` rounds to go.
unfoldable pub mark : Manager → ℕ → ℕ → ℕ → ℕ → Result Manager
mark g found_start flags zero i = ok g
mark g found_start flags (suc left) i = do
  words ← set_bit g.bitmap (add64 found_start i)
  g' ← page_init (record g { bitmap = words }) (some (add64 found_start i)) flags
  mark g' found_start flags left (i + 1)

-- Each round of the search reads the word of its bit, so it cannot take more rounds than the bitmap
-- has bits.
abbrev pub search_fuel : List ℕ → ℕ
search_fuel words = suc (64 * length words)

-- The update of the zone's statistics behind the marking loop.
unfoldable pub charge : Manager → ℕ → ℕ → Result Manager
charge g z nr_pages = do
  zone ← in_range (get_elem? g.zones z)
  ok (record g {
    zones = set g.zones z (record zone { nr_free = sub64 zone.nr_free nr_pages });
    free_2m_pages = sub64 g.free_2m_pages nr_pages;
  })

unfoldable pub alloc_in : Manager → ZoneType → ℕ → ℕ → Option ℕ → Result (Option ℕ × Manager)
alloc_in g zone_type nr_pages flags none =
    ok (none, record g { trace = not_enough_pages zone_type nr_pages ∷ g.trace })
alloc_in g zone_type nr_pages flags (some z) = do
  zone ← in_range (get_elem? g.zones z)
  found_start ← search g.bitmap zone.end_pfn nr_pages (search_fuel g.bitmap) zone.start_pfn
  if found_start == 0
      then ok (none, record g { trace = not_contiguous zone_type nr_pages ∷ g.trace })
      else (mark g found_start flags nr_pages 0 >>= λ g'.
          charge g' z nr_pages >>= λ g''. ok (some found_start, g''))

-- The result is the frame's index, `none` for NULL.
unfoldable pub alloc_pages : Manager → ZoneType → ℕ → ℕ → Result (Option ℕ × Manager)
unfolding find_zone alloc_in
alloc_pages g zone_type nr_pages flags =
    alloc_in g zone_type nr_pages flags (find_zone g.zones zone_type nr_pages 0)
