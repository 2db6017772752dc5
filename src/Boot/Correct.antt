-- ===== src/Boot/Correct.antt =====
-- `Start_Kernel` of kernel/main.c and the page allocator together.
use knos.Base.{
  ℕ, ◌+◌, ◌/◌, ◌≤◌, ◌<◌, ◌≡◌, inl, inr, refl, ap, ◌∙◌, some, List, ◌∷◌, ok, ◌>>=◌, arith, length,
  get_elem?, get_elem?_of_lt,
}
use knos.Memory.{Page, Zone, Manager, normal, not_enough_pages, not_contiguous}
use knos.Memory.WellFormed.{IsWellFormed}
use knos.Memory.Frame.Laws.{taken}
use knos.Memory.Alloc.{alloc_pages}
use knos.Memory.Alloc.Correct.{HasFairCounts, IsAllocated, alloc_pages_lem}
use knos.Memory.Free.{free_pages}
use knos.Memory.Lifecycle.{free_pages-alloc_pages}
use knos.Memory.E820.{E820Entry}
use knos.Memory.Init.{stored_entries}
use knos.Memory.Init.Correct.{IsBootable, init_memory_lem}
use knos.Boot.{Shown, refused, tried, test_pages, test_flags, try_page, try_allocator, start_memory}

-- Where the code ends: no page was allocated, or the frame that it looks at in the end has no flag and
-- no reference.
abbrev pub IsClean : Shown → Type 0
IsClean refused = 0 ≤ 0
IsClean (tried pfn word next p) = (p.flags ≡ 0) × (p.ref_count ≡ 0) × (p.pfn ≡ pfn)

-- No zone ends behind the last frame.
abbrev pub AreWithin : Manager → Type 0
AreWithin g =
    (z : ℕ) (zone : Zone) → get_elem? g.zones z ≡ some zone → zone.end_pfn < length g.pages

try_run :
    (b word next : ℕ) (h k : Manager) (p q : Page)
    → get_elem? h.pages b ≡ some p
    → p.pfn ≡ b
    → get_elem? h.bitmap (b / 64) ≡ some word
    → get_elem? h.bitmap (b / 64 + 1) ≡ some next
    → free_pages h (some b) test_pages ≡ ok k
    → get_elem? k.pages b ≡ some q
    → try_page (some b) h ≡ ok (tried b word next q, k)
unfolding try_page
try_run b word next h k p q at_b number here there back again =
    rw (at_b, number, here, there, back, again) refl

-- The pages are there: the run through the code.
module _ {g : Manager} {z : ℕ} {zone : Zone} {b : ℕ} {h : Manager}
    (a : IsAllocated g normal test_pages test_flags z zone b h) (wf : IsWellFormed g)
    (fair : HasFairCounts g) (within : AreWithin g)
    (e : alloc_pages g normal test_pages test_flags ≡ ok (some b, h)) where
  try_page_lem :
      (shown : Shown) × (k : Manager) × (try_page (some b) h ≡ ok (shown, k)) × IsClean shown
  try_page_lem =
      let last = within z zone a.at_z in
      let (p, at_b, back) = (wf.placed z zone a.at_z).frames b a.above (omega (arith, a.below)) in
      let same = a.effect.shape in
      let room : b / 64 + 1 < length h.bitmap =
        omega (arith, a.below, last, wf.covers, same.bitmap_same) in
      let (word, here) = get_elem?_of_lt h.bitmap (b / 64) (omega arith) in
      let (next, there) = get_elem?_of_lt h.bitmap (b / 64 + 1) room in
      let (z', zone', k, at_z', run, r) =
        free_pages-alloc_pages normal test_pages test_flags b h wf fair (omega arith) (omega arith)
          e in
      let number = wf.numbered b p at_b in
      (
        tried b word next (record p { ref_count = 0; flags = 0 }),
        k,
        try_run b word next h k (taken p test_flags) (record p { ref_count = 0; flags = 0 })
            (a.effect.frames_in b p (omega arith) (omega arith) at_b) number here there run
            (r.frames_in b p (omega arith) (omega arith) at_b),
        (refl, refl, number),
      )

try_allocator_lem :
    (g : Manager)
    → IsWellFormed g
    → HasFairCounts g
    → AreWithin g
    → (shown : Shown) × (k : Manager) × (try_allocator g ≡ ok (shown, k)) × IsClean shown
unfolding try_allocator try_page
try_allocator_lem g wf fair within =
    elim (alloc_pages_lem normal test_pages test_flags wf fair (omega arith) (omega arith)) [
      | inl (none_left, e) ↦ (
        refused,
        record g { trace = not_enough_pages normal test_pages ∷ g.trace },
        ap (λ r. r >>= λ x. try_page x.0 x.1) e,
        omega arith,
      )
      | inr (inl (z, zone, at_z, offered, first, e)) ↦ (
        refused,
        record g { trace = not_contiguous normal test_pages ∷ g.trace },
        ap (λ r. r >>= λ x. try_page x.0 x.1) e,
        omega arith,
      )
      | inr (inr (z, zone, b, h, e, a)) ↦
          let (shown, k, run, clean) = try_page_lem a wf fair within e in
          (shown, k, ap (λ r. r >>= λ x. try_page x.0 x.1) e ∙ run, clean)
    ]

-- From a memory map that `init_memory` can work with, the code runs to its end without a fault, without
-- halting on the way, and without leaving the bitmap: it is refused the pages, or gets 64 of them and
-- gives them back, and then sees a frame without a flag and without a reference.
pub start_memory_lem :
    (end_krnl : ℕ) (pml4 : List ℕ) (entries : List E820Entry) (s t : ℕ)
    → IsBootable end_krnl (stored_entries entries) s t
    → (shown : Shown) × (k : Manager) × (start_memory end_krnl pml4 entries ≡ ok (shown, k))
      × IsClean shown
unfolding start_memory
start_memory_lem end_krnl pml4 entries s t boot =
    let (r, e, is) = init_memory_lem end_krnl pml4 entries s t boot in
    let (shown, k, run, clean) = try_allocator_lem r.manager is.well_formed is.fair is.within in
    (shown, k, ap (λ x. x >>= λ r. try_allocator r.manager) e ∙ run, clean)
