-- ===== src/Memory/Tests.antt =====
-- Runs of the allocator on a small manager, and the theorems at such inputs.
use mathlib.Core.Path.{subst}
use knos.Base.{
  ℕ, zero, suc, ◌+◌, ◌-◌, ◌*◌, ◌/◌, ◌^◌, ◌≤◌, ◌<◌, ◌≡◌, ◌⊎◌, ◌↔◌, refl, ap, Option, none, some,
  List, [], ◌∷◌, ok, arith, get_elem?,
}
use knos.Base.Bits.{bit}
use knos.Memory.{Page, page_2m, Zone, normal, Manager, page_kernel, tlb_flushed}
use knos.Memory.Search.Sound.{IsFreeRun}
use knos.Memory.Blocks.{Holds, start, got, AreCounts, remove}
use knos.Memory.Blocks.Held.{Refines}
use knos.Memory.Blocks.Refine.{Holds-Refines, free_pages-Holds}
use knos.Memory.Search.Hit.{AreWords, probe-hit_iff}
use knos.Memory.Alloc.FirstFit.{alloc_pages_first}
use knos.Memory.Search.Large.{probe_ignores_rest}
use knos.Memory.Alloc.Keeps.{alloc_pages-IsWellFormed}
use knos.Memory.Free.Keeps.{free_pages-IsWellFormed}
use knos.Memory.Free.Loop.{AreOwned, IsReleased}
use knos.Memory.Free.Correct.{free_pages_lem}
use knos.Memory.WellFormed.{IsWellFormed, IsPlaced, Unused}
use knos.Memory.Bitmap.Laws.{marked}
use knos.Memory.Bitmap.{set_bit, clear_bit}
use knos.Memory.Frame.{page_init}
use knos.Memory.Search.{search, probe, probe_word, hit}
use knos.Memory.Alloc.{alloc_pages, mark, charge}
use knos.Memory.Alloc.Correct.{HasFairCounts, IsAllocated, Allocates, alloc_pages_lem}
use knos.Memory.Free.{free_pages, free_loop, free_frame}
use knos.Memory.Lifecycle.{
  alloc_pages-inv, IsReturned, free_pages-alloc_pages, alloc_pages_disjoint,
}

abbrev frame : Option ℕ → ℕ → Page
frame z i = record { zone = z; pfn = i; ref_count = 0; flags = 0; page_size = page_2m }

abbrev small_zone : Zone
small_zone = record {
  page_array = 1;
  total_pages = 3;
  start_pfn = 1;
  end_pfn = 4;
  attr = 0;
  zone_type = normal;
  nr_free = 3;
}

-- Four frames, of which the last three are a zone.
abbrev small : Manager
small = record {
  bitmap = 1 ∷ [];
  pages = frame none 0 ∷ frame (some 0) 1 ∷ frame (some 0) 2 ∷ frame (some 0) 3 ∷ [];
  zones = small_zone ∷ [];
  free_2m_pages = 3;
  trace = [];
}

abbrev taken_frame : ℕ → Page
taken_frame i = record (frame (some 0) i) { ref_count = 1; flags = 10 }

abbrev small_after : Manager
small_after = record small {
  bitmap = 7 ∷ [];
  pages = frame none 0 ∷ taken_frame 1 ∷ taken_frame 2 ∷ frame (some 0) 3 ∷ [];
  zones = record small_zone { nr_free = 2 ^ 64 - 1 } ∷ [];
  free_2m_pages = 2 ^ 64 - 1;
}

abbrev one_taken : Manager
one_taken = record small {
  bitmap = 3 ∷ [];
  pages = frame none 0 ∷ taken_frame 1 ∷ frame (some 0) 2 ∷ frame (some 0) 3 ∷ [];
  zones = record small_zone { nr_free = 1 } ∷ [];
  free_2m_pages = 1;
}

small_run : alloc_pages small normal 2 page_kernel ≡ ok (some 1, small_after)
unfolding alloc_pages search probe probe_word mark charge set_bit page_init
small_run = refl

small_back :
    free_pages small_after (some 1) 2
    ≡ ok (record small {
      zones = record small_zone { nr_free = 1 } ∷ [];
      free_2m_pages = 1;
      trace = tlb_flushed ∷ [];
    })
unfolding free_pages free_loop free_frame clear_bit
small_back = refl

small-frames :
    (i : ℕ) → 1 ≤ i → i < 4 → (p : Page) × (get_elem? small.pages i ≡ some p) × (p.zone ≡ some 0)
small-frames zero lo hi = absurd (omega arith)
small-frames (suc zero) lo hi = (frame (some 0) 1, refl, refl)
small-frames (suc (suc zero)) lo hi = (frame (some 0) 2, refl, refl)
small-frames (suc (suc (suc zero))) lo hi = (frame (some 0) 3, refl, refl)
small-frames (suc (suc (suc (suc i)))) lo hi = absurd (omega arith)

small-IsPlaced : (z : ℕ) (zone : Zone) → get_elem? small.zones z ≡ some zone → IsPlaced small z zone
small-IsPlaced zero zone e =
    let same : small_zone ≡ zone = cc e in
    subst (IsPlaced small 0) same
      (record { start_le = omega arith; end_le = omega arith; frames = small-frames })
small-IsPlaced (suc z) zone e = absurd (cc e)

small-plain_of :
    (i : ℕ) (p : Page)
    → frame (some 0) i ≡ p
    → (p.pfn ≡ i) × Unused p × ((z : ℕ) → p.zone ≡ some z → z < 1)
small-plain_of i p e =
    subst (λ r. (r.pfn ≡ i) × Unused r × ((z : ℕ) → r.zone ≡ some z → z < 1)) e
      (refl, refl, λ z e. let same : 0 ≡ z = cc e in omega arith)

small-plain :
    (i : ℕ) (p : Page)
    → get_elem? small.pages i ≡ some p
    → (p.pfn ≡ i) × Unused p × ((z : ℕ) → p.zone ≡ some z → z < 1)
small-plain zero p e =
    let same : frame none 0 ≡ p = cc e in
    subst (λ r. (r.pfn ≡ 0) × Unused r × ((z : ℕ) → r.zone ≡ some z → z < 1)) same
      (refl, refl, λ z e. absurd (cc e))
small-plain (suc zero) p e = small-plain_of 1 p (cc e)
small-plain (suc (suc zero)) p e = small-plain_of 2 p (cc e)
small-plain (suc (suc (suc zero))) p e = small-plain_of 3 p (cc e)
small-plain (suc (suc (suc (suc i)))) p e = absurd (cc e)

small-IsWellFormed : IsWellFormed small
small-IsWellFormed = record {
  covers = omega arith;
  addressable = omega arith;
  numbered = λ i p e. (small-plain i p e).0;
  linked = λ i p z e. (small-plain i p e).2 z;
  placed = small-IsPlaced;
  tracked = λ i p e clear. (small-plain i p e).1;
}

one_zone_fair :
    (g : Manager) (n : ℕ)
    → g.zones ≡ record small_zone { nr_free = n } ∷ []
    → n ≤ 3
    → g.free_2m_pages < 2 ^ 64
    → HasFairCounts g
one_zone_fair g n e few fits = record { zone_fair = fair; free_fits = fits }
  where
    fair :
        (z : ℕ) (zone : Zone)
        → get_elem? g.zones z ≡ some zone
        → zone.start_pfn + zone.nr_free ≤ zone.end_pfn
    fair zero zone at_z =
        let same : record small_zone { nr_free = n } ≡ zone =
          cc (at_z, ap (λ l. get_elem? l 0) e) in
        subst (λ (x : Zone). x.start_pfn + x.nr_free ≤ x.end_pfn) same (omega arith)
    fair (suc z) zone at_z = absurd (cc (at_z, ap (λ l. get_elem? l (suc z)) e))

small-HasFairCounts : HasFairCounts small
small-HasFairCounts = one_zone_fair small 3 refl (omega arith) (omega arith)

one_taken-HasFairCounts : HasFairCounts one_taken
one_taken-HasFairCounts = one_zone_fair one_taken 1 refl (omega arith) (omega arith)

alloc_pages_lem_example :
    Allocates small normal 2 page_kernel (alloc_pages small normal 2 page_kernel)
alloc_pages_lem_example =
    alloc_pages_lem normal 2 page_kernel small-IsWellFormed small-HasFairCounts (omega arith)
      (omega arith)

free_pages-alloc_pages_example :
    (z : ℕ) × (zone : Zone) × (k : Manager) × (get_elem? small.zones z ≡ some zone)
    × (free_pages small_after (some 1) 2 ≡ ok k)
    × IsReturned small z zone 1 2 k
free_pages-alloc_pages_example =
    free_pages-alloc_pages normal 2 page_kernel 1 small_after small-IsWellFormed small-HasFairCounts
      (omega arith) (omega arith) small_run

alloc_pages-IsWellFormed_example : IsWellFormed small_after
alloc_pages-IsWellFormed_example =
    alloc_pages-IsWellFormed small normal 2 page_kernel (some 1) small-IsWellFormed small_run

small_after-IsWellFormed : IsWellFormed small_after
small_after-IsWellFormed =
    alloc_pages-IsWellFormed small normal 2 page_kernel (some 1) small-IsWellFormed small_run

abbrev small_end : Manager
small_end = record small {
  zones = record small_zone { nr_free = 1 } ∷ [];
  free_2m_pages = 1;
  trace = tlb_flushed ∷ [];
}

free_pages-IsWellFormed_example : IsWellFormed small_end
free_pages-IsWellFormed_example =
    free_pages-IsWellFormed small_after (some 1) 2 small_after-IsWellFormed small_back

small_after-AreOwned : AreOwned small_after 1 2
small_after-AreOwned zero lo hi = absurd (omega arith)
small_after-AreOwned (suc zero) lo hi = (taken_frame 1, refl, refl, (refl, omega arith))
small_after-AreOwned (suc (suc zero)) lo hi = (taken_frame 2, refl, refl, (refl, omega arith))
small_after-AreOwned (suc (suc (suc i))) lo hi = absurd (omega arith)

free_pages_lem_example :
    (h : Manager) × (free_pages small_after (some 1) 2
      ≡ ok (record h { trace = tlb_flushed ∷ h.trace }))
    × IsReleased small_after 0 (record small_zone { nr_free = 2 ^ 64 - 1 }) 1 2 h
free_pages_lem_example =
    free_pages_lem 1 2 0 (record small_zone { nr_free = 2 ^ 64 - 1 }) (taken_frame 1)
      small_after-IsWellFormed (omega arith) refl (omega arith) (omega arith) refl refl
      (omega arith) small_after-AreOwned

small_allocation :
    (z : ℕ) × (zone : Zone) × IsAllocated small normal 2 page_kernel z zone 1 small_after
small_allocation =
    alloc_pages-inv normal 2 page_kernel 1 small_after small-IsWellFormed small-HasFairCounts
      (omega arith) (omega arith) small_run

-- A request of 65 pages at page 64: word 1 is free, and page 128 is taken.
abbrev three_words : List ℕ
three_words = 0 ∷ 0 ∷ 1 ∷ []

one_zero : (j : ℕ) → j < 1 → get_elem? three_words (1 + j) ≡ some 0
one_zero zero h = refl
one_zero (suc j) h = absurd (omega arith)

marked_128 : marked three_words (64 + 65 / 64 * 64) ≡ 1
unfolding marked bit
marked_128 = refl

probe_ignores_rest_example : (probe three_words 65 64 ≡ ok hit) × (¬ IsFreeRun three_words 64 65)
probe_ignores_rest_example =
    probe_ignores_rest three_words 65 64 (omega arith) (omega arith) (omega arith) one_zero
      marked_128

-- Two allocations of one page each.
abbrev two_taken : Manager
two_taken = record small {
  bitmap = 7 ∷ [];
  pages = frame none 0 ∷ taken_frame 1 ∷ taken_frame 2 ∷ frame (some 0) 3 ∷ [];
  zones = record small_zone { nr_free = 2 ^ 64 - 1 } ∷ [];
  free_2m_pages = 2 ^ 64 - 1;
}

first_run : alloc_pages small normal 1 page_kernel ≡ ok (some 1, one_taken)
unfolding alloc_pages search probe probe_word mark charge set_bit page_init
first_run = refl

second_run : alloc_pages one_taken normal 1 page_kernel ≡ ok (some 2, two_taken)
unfolding alloc_pages search probe probe_word mark charge set_bit page_init
second_run = refl

alloc_pages_disjoint_example : (1 + 1 ≤ 2) ⊎ (2 + 1 ≤ 1)
alloc_pages_disjoint_example =
    alloc_pages_disjoint normal normal 1 1 page_kernel page_kernel 1 2 small-IsWellFormed
      small-HasFairCounts one_taken-HasFairCounts (omega arith) (omega arith) first_run second_run

one_word-AreWords : (w : ℕ) → w < 2 ^ 64 → AreWords (w ∷ [])
unfolding AreWords
one_word-AreWords w small_word zero v e = let same : w ≡ v = cc e in omega arith
one_word-AreWords w small_word (suc i) v e = absurd (cc e)

probe-hit_iff_example : (probe (7 ∷ []) 60 4 ≡ ok hit) ↔ IsFreeRun (7 ∷ []) 4 60
probe-hit_iff_example =
    probe-hit_iff (7 ∷ []) 60 4 (one_word-AreWords 7 (omega arith)) (omega arith) (omega arith)
      (omega arith)

small-IsFreeRun : IsFreeRun small.bitmap 1 2
unfolding marked bit
small-IsFreeRun zero h = refl
small-IsFreeRun (suc zero) h = refl
small-IsFreeRun (suc (suc k)) h = absurd (omega arith)

alloc_pages_first_example :
    (h : Manager) × (alloc_pages small normal 2 page_kernel ≡ ok (some 1, h))
    × IsAllocated small normal 2 page_kernel 0 small_zone 1 h
alloc_pages_first_example =
    alloc_pages_first normal 2 page_kernel 0 small_zone small-IsWellFormed small-HasFairCounts
      (one_word-AreWords 1 (omega arith)) (omega arith) (omega arith) refl (refl, omega arith)
      (λ k zone lt. absurd (omega arith)) (omega arith) small-IsFreeRun

-- A client that holds a block of two pages.
small_held : Holds small (record { first = 1; count = 2 } ∷ []) small_after
small_held =
    got normal 2 page_kernel 1 start small-HasFairCounts (omega arith) (omega arith) small_run

Holds-Refines_example : Refines small (record { first = 1; count = 2 } ∷ []) small_after
Holds-Refines_example = Holds-Refines small-IsWellFormed small_held

small_after-AreCounts : AreCounts small_after
small_after-AreCounts = record { zone_fits = fits; free_fits = omega arith }
  where
    fits : (z : ℕ) (zone : Zone) → get_elem? small_after.zones z ≡ some zone → zone.nr_free < 2 ^ 64
    fits zero zone e =
        let same : record small_zone { nr_free = 2 ^ 64 - 1 } ≡ zone = cc e in
        subst (λ (x : Zone). x.nr_free < 2 ^ 64) same (omega arith)
    fits (suc z) zone e = absurd (cc e)

free_pages-Holds_example :
    (k : Manager) × (free_pages small_after (some 1) 2 ≡ ok k)
    × Refines small (remove 0 (record { first = 1; count = 2 } ∷ [])) k
free_pages-Holds_example =
    free_pages-Holds 0 (record { first = 1; count = 2 }) small-IsWellFormed small_held
      small_after-AreCounts refl
