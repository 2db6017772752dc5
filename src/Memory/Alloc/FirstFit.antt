-- ===== src/Memory/Alloc/FirstFit.antt =====
-- When `alloc_pages` of kernel/memory.c is sure to succeed.
use native.Mathlib.Decide.{dec_lt}
use knos.Base.{ℕ, suc, ◌*◌, ◌≤◌, ◌<◌, ◌≡◌, inl, inr, ◌∙◌, ap, some, ok, arith, length, get_elem?}
use knos.Memory.{Zone, ZoneType, Manager}
use knos.Memory.WellFormed.{IsWellFormed}
use knos.Memory.Search.Sound.{IsFreeRun}
use knos.Memory.Search.Hit.{AreWords, search_first}
use knos.Memory.Alloc.{find_zone, alloc_pages}
use knos.Memory.Alloc.Choice.{Offers, NoOffer, find_zone_lem}
use knos.Memory.Alloc.Correct.{HasFairCounts, IsAllocated, alloc_in_found, alloc_pages-some}

-- The first zone that offers the pages is the one chosen.
find_zone_first :
    (g : Manager) (t : ZoneType) (nr z : ℕ) (zone : Zone)
    → get_elem? g.zones z ≡ some zone
    → Offers zone t nr
    → NoOffer g.zones t nr z
    → find_zone g.zones t nr 0 ≡ some z
find_zone_first g t nr z zone at_z offered first = elim (find_zone_lem g.zones t nr 0) [
  | inl (e, refused) ↦ absurd (refused (suc z) z zone (omega arith) at_z offered)
  | inr (k, other, e, at_k, offered', first') ↦ elim (dec_lt k z) [
    | yes lt ↦ absurd (first k other lt at_k offered')
    | no ge ↦ elim (dec_lt z k) [
      | yes gt ↦ absurd (first' z zone gt at_z offered)
      | no le ↦ e ∙ ap some (omega arith)
    ]
  ]
]

-- In a well-formed manager with believable counts, a request of 1 to 64 pages is met at the start of
-- the first zone that offers them if the pages there are free and page 0 is not among them.
pub alloc_pages_first :
    {g : Manager} (t : ZoneType) (nr flags z : ℕ) (zone : Zone)
    → IsWellFormed g
    → HasFairCounts g
    → AreWords g.bitmap
    → 0 < nr
    → nr ≤ 64
    → get_elem? g.zones z ≡ some zone
    → Offers zone t nr
    → NoOffer g.zones t nr z
    → 0 < zone.start_pfn
    → IsFreeRun g.bitmap zone.start_pfn nr
    → (h : Manager) × (alloc_pages g t nr flags ≡ ok (some zone.start_pfn, h))
      × IsAllocated g t nr flags z zone zone.start_pfn h
alloc_pages_first {g} t nr flags z zone wf fair sane pos small at_z offered first nonzero free =
    let fits = fair.zone_fair z zone at_z in
    let placed = wf.placed z zone at_z in
    let found =
      search_first g.bitmap zone.end_pfn nr (64 * length g.bitmap) zone.start_pfn sane pos small
        (omega arith) (omega (arith, wf.covers, placed.end_le)) wf.addressable free in
    let (h, e, a) =
      alloc_in_found g t nr flags z zone at_z wf fair pos small offered first zone.start_pfn found
        (ground arith) (omega arith) (omega arith) free in
    (h, alloc_pages-some g t nr flags z (find_zone_first g t nr z zone at_z offered first) ∙ e, a)
