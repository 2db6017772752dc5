-- ===== src/Memory/Blocks.antt =====
-- What a client of the page allocator of kernel/memory.c holds: blocks of pages, which it gets by
-- `alloc_pages` and gives back by `free_pages` in any order.
pub mod Counts
pub mod Held
pub mod Got
pub mod Gave
pub mod Refine
use knos.Base.{
  ℕ, zero, suc, ◌+◌, ◌^◌, ◌≤◌, ◌<◌, ◌≡◌, Bool, true, false, ◌&&◌, Option, none, some, List, [], ◌∷◌,
  ok, get_elem?, ltb, leb, if◌then◌else◌,
}
use knos.Memory.{Zone, ZoneType, Manager}
use knos.Memory.Alloc.{alloc_pages}
use knos.Memory.Alloc.Correct.{HasFairCounts}
use knos.Memory.Free.{free_pages}

-- `count` pages from `first` on.
pub record Block : Type 0 where
  pub first : ℕ
  pub count : ℕ

-- 1 if the page is one of the block, else 0.
abbrev pub covers : Block → ℕ → ℕ
covers b q = if leb b.first q && ltb q (b.first + b.count) then 1 else 0

-- The number of blocks that have the page.
unfoldable pub cover_count : List Block → ℕ → ℕ
cover_count [] q = 0
cover_count (b ∷ bs) q = covers b q + cover_count bs q

-- The list without one of its elements.
unfoldable pub remove : ℕ → List Block → List Block
remove i [] = []
remove zero (b ∷ bs) = bs
remove (suc i) (b ∷ bs) = b ∷ remove i bs

-- The counts of free pages are 64-bit numbers.
pub record AreCounts (g : Manager) : Type 0 where
  pub zone_fits : (z : ℕ) (zone : Zone) → get_elem? g.zones z ≡ some zone → zone.nr_free < 2 ^ 64
  pub free_fits : g.free_2m_pages < 2 ^ 64

-- The client's calls from the manager `g` on, with the blocks that it holds behind them: it asks for 1
-- to 64 pages where the counts are believable, and returns any block that it holds.
pub data Holds (g : Manager) : List Block → Manager → Type 0 where
  start : Holds g [] g
  refused :
      {bs : List Block} {h k : Manager} (t : ZoneType) (nr flags : ℕ)
      → Holds g bs h
      → HasFairCounts h
      → 0 < nr
      → nr ≤ 64
      → alloc_pages h t nr flags ≡ ok (none, k)
      → Holds g bs k
  got :
      {bs : List Block} {h k : Manager} (t : ZoneType) (nr flags b : ℕ)
      → Holds g bs h
      → HasFairCounts h
      → 0 < nr
      → nr ≤ 64
      → alloc_pages h t nr flags ≡ ok (some b, k)
      → Holds g (record { first = b; count = nr } ∷ bs) k
  gave :
      {bs : List Block} {h k : Manager} (i : ℕ) (b : Block)
      → Holds g bs h
      → AreCounts h
      → get_elem? bs i ≡ some b
      → free_pages h (some b.first) b.count ≡ ok k
      → Holds g (remove i bs) k
