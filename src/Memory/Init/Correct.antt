-- ===== src/Memory/Init/Correct.antt =====
-- `init_memory` of kernel/memory.c as a whole.
use mathlib.Core.Path.{subst}
use native.Mathlib.Decide.{ℕ_discrete, dec_lt}
use knos.Memory.Init.Spans.{span_of, zones_from, built-zones, taken-zones}
use knos.Memory.Init.Taken.{taken-pages}
use knos.Base.{
  ℕ, ◌%◌, Bool, map, zero, suc, ◌+◌, ◌-◌, ◌*◌, ◌^◌, ◌≤◌, ◌<◌, ◌≡◌, refl, ap, sym, ◌∙◌, ◌⊎◌, inl,
  inr, true, false, ◌&&◌, ◌||◌, Bool-cases, some, some-injective, List, ok, arith, length,
  get_elem?, set, get_elem?_of_lt, ltb, leb, ◌==◌, if◌then◌else◌,
}
use knos.Base.Word.{add64}
use knos.Memory.{Page, Zone, Manager}
use knos.Memory.Bitmap.{set_bit, clear_bit}
use knos.Memory.Bitmap.Laws.{marked, IsWritten, set_bit_lem, clear_bit_lem}
use knos.Memory.Bitmap.Run.{IsMarkedRun}
use knos.Memory.WellFormed.{
  Unused, IsWellFormed, Keeps-IsWellFormed, Keeps-trans, Keeps-trace, length-zones_same,
  length-pages_same, zone_before,
}
use knos.Memory.Alloc.Correct.{HasFairCounts}
use knos.Memory.E820.{E820Entry, Totals, bitmap_words, new_pages, prepare}
use knos.Memory.E820.Reserved.{
  AreNamed, is_reserved, top_pfn, top_pfn-lt, EndBy, EndBy-top_pfn, prepare_run, new_page,
}
use knos.Memory.Init.{
  fresh_page, claim_page_0, test_bit, take_kernel_pages, settle, stored_entries, build_zones,
  before_zones, flush, Initialised, init_memory, clear_entries,
}
use knos.Memory.Init.Layout.{Placement, place_arrays, kernel_start, kernel_end}
use knos.Memory.Init.Zones.{IsFresh, IsBuilding}
use knos.Memory.Init.Build.{
  first_zone, count_zones, AreAscending, build_zones_lem, first_zone_bounds,
}
use knos.Memory.Init.Kernel.{IsTaken, take_kernel_pages_lem}
use knos.Memory.Init.Settle.{
  first_start, claimed, claimed-IsBuilding, IsBuilding-IsWellFormed, IsBuilding-HaveRoom,
  HaveRoom-at,
}

-- The mark of page `q` at the end, if it was `old` when the zones were built: 1 for the kernel's pages
-- from `first` to `last`, 0 for page 0 and the page of the test, `old` for the others.
abbrev pub final_mark : ℕ → ℕ → ℕ → ℕ → ℕ → ℕ
final_mark first last test old q =
    if leb first q && ltb q last then 1 else if q == 0 || q == test then 0 else old

-- Whether the loop over the kernel's pages takes page `q`, by the physical addresses of the arrays: the
-- page does not begin before the bitmap, and begins less than 2 MB behind the end of the arrays, as far
-- as two roundings to 2 MB go. (At the top of the address space both wrap around.)
unfoldable pub is_kernel_page : Placement → ℕ → Bool
is_kernel_page l q =
    let start = (l.bitmap_addr + 2 ^ 64 - 0xFFFF800000000000) % 2 ^ 64 in
    let end = (l.struct_end + 2 ^ 64 - 0xFFFF800000000000) % 2 ^ 64 in
    ltb ((start + (2 ^ 21 - 1)) % 2 ^ 64) ((q + 1) * 2 ^ 21)
    && leb ((q + 1) * 2 ^ 21) ((end + 2 * (2 ^ 21 - 1)) % 2 ^ 64)

is_kernel_page_lem :
    (l : Placement) (q : ℕ) → (leb (kernel_start l) q && ltb q (kernel_end l)) ≡ is_kernel_page l q
unfolding is_kernel_page kernel_start kernel_end
is_kernel_page_lem l q = ground arith

-- The mark of page `q` at the end, if it was `old` when the zones were built: 1 for the kernel's pages,
-- 0 for page 0 and the page of the test, `old` for the others.
abbrev pub mark_of : Placement → ℕ → ℕ → ℕ → ℕ
mark_of l test old q = if is_kernel_page l q then 1 else if q == 0 || q == test then 0 else old

-- What happens to the bitmap on the way.
bits_lem :
    (g0 w0 w1 w2 w3 : List ℕ) (first last test : ℕ)
    → IsWritten g0 0 0 w0
    → IsWritten w0 test 1 w1
    → IsWritten w1 test 0 w2
    → IsMarkedRun w2 (last - first) first w3
    → (q : ℕ) → marked w3 q ≡ final_mark first last test (marked g0 q) q
bits_lem g0 w0 w1 w2 w3 first last test zero_bit on off run q =
    elim (Bool-cases (leb first q && ltb q last)) [
      | inl kernel ↦ rw kernel (run.inside q (ground arith) (ground arith))
      | inr other ↦ rw other (
          run.outside q (out other) ∙ elim (ℕ_discrete test q) [
            | yes same ↦
                let hit : (q == 0 || q == test) ≡ true = ground arith in
                rw hit (ap (marked w2) (sym same) ∙ off.here)
            | no apart ↦
                off.elsewhere q apart
                ∙ (on.elsewhere q apart ∙ elim (ℕ_discrete 0 q) [
                  | yes same ↦
                      let hit : (q == 0 || q == test) ≡ true = ground arith in
                      rw hit (ap (marked w0) (sym same) ∙ zero_bit.here)
                  | no ne ↦
                      let miss : (q == 0 || q == test) ≡ false = ground arith in
                      rw miss (zero_bit.elsewhere q ne)
                ])
          ])
    ]
  where
    out : (leb first q && ltb q last) ≡ false → (q < first) ⊎ (first + (last - first) ≤ q)
    out e = elim (dec_lt q first) [ yes lt ↦ inl lt | no ge ↦ inr (ground arith) ]

-- The manager at the end, `g` being the one with the zones built.
pub record IsSettled (g h : Manager) (s first last : ℕ) : Type 0 where
  pub well_formed : IsWellFormed h
  pub fair : HasFairCounts h
  pub bits : (q : ℕ) → marked h.bitmap q ≡ final_mark first last (s + 10) (marked g.bitmap q) q
  pub zone_count : length h.zones ≡ length g.zones
  pub within :
      (z : ℕ) (zone : Zone) → get_elem? h.zones z ≡ some zone → zone.end_pfn < length h.pages
  pub spans : map span_of h.zones ≡ map span_of g.zones
  pub kernel_frames :
      (q : ℕ)
      → first ≤ q
      → q < last
      → (p : Page) × (get_elem? h.pages q ≡ some p) × (p.flags ≡ 0x030A) × (p.ref_count ≡ 1)
  pub other_frames :
      (q : ℕ) (p : Page) → (q < first) ⊎ (last ≤ q) → get_elem? h.pages q ≡ some p → Unused p

-- The manager behind the claim of page 0, with any bitmap.
abbrev with_page_0 : Manager → List ℕ → Manager
with_page_0 g words = record g { bitmap = words; pages = set g.pages 0 (fresh_page 0 0) }

-- The run of `settle`, step by step.
settle_run :
    (end_krnl top k : ℕ) (g : Manager) (p : Page) (zone : Zone) (w0 w1 w2 : List ℕ) (h : Manager)
    → get_elem? g.pages 0 ≡ some p
    → clear_bit g.bitmap 0 ≡ ok w0
    → get_elem? g.zones 0 ≡ some zone
    → add64 zone.start_pfn 10 ≡ k
    → set_bit w0 k ≡ ok w1
    → clear_bit w1 k ≡ ok w2
    → let l = place_arrays end_krnl top (length g.zones) in
      take_kernel_pages (kernel_end l - kernel_start l) (kernel_start l) (with_page_0 g w2) ≡ ok h
      → settle end_krnl top g ≡ ok (flush h, place_arrays end_krnl top (length g.zones))
unfolding settle claim_page_0 test_bit
settle_run end_krnl top k g p zone w0 w1 w2 h at_0 clear_0 at_z start set_it clear_it taken =
    rw (at_0, clear_0, at_z, start, set_it, clear_it, taken) refl

-- What is left behind the kernel's pages.
done-IsSettled :
    (g g2 h : Manager) (s first last : ℕ) (w0 w1 : List ℕ)
    → ((z : ℕ) (zone : Zone) → get_elem? g2.zones z ≡ some zone → zone.end_pfn < length g2.pages)
    → IsTaken last first (last - first) g2 h
    → take_kernel_pages (last - first) first g2 ≡ ok h
    → ((q : ℕ) (p : Page) → get_elem? g2.pages q ≡ some p → Unused p)
    → IsWellFormed g2
    → g2.zones ≡ g.zones
    → IsWritten g.bitmap 0 0 w0
    → IsWritten w0 (s + 10) 1 w1
    → IsWritten w1 (s + 10) 0 g2.bitmap
    → IsSettled g (flush h) s first last
done-IsSettled g g2 h s first last w0 w1 below done run unused wf zones zero_bit on off = record {
  well_formed = Keeps-IsWellFormed (Keeps-trans done.keeps (Keeps-trace h (flush h).trace)) wf;
  fair = record {
    zone_fair = λ z zone e. (HaveRoom-at last _ h.zones z zone done.room e).fair;
    free_fits = done.free;
  };
  bits = bits_lem g.bitmap w0 w1 g2.bitmap h.bitmap first last (s + 10) zero_bit on off done.marks;
  zone_count = length-zones_same done.keeps.shape ∙ ap length zones;
  within = λ z zone e.
      let (old, at_z, shape) = zone_before done.keeps.shape z zone e in
      omega (arith, below z old at_z, ap (λ p. p.1) shape, length-pages_same done.keeps.shape);
  spans = taken-zones (last - first) first g2 h run ∙ ap (map span_of) zones;
  kernel_frames = λ q le lt.
      let (p, before, now) = (taken-pages (last - first) first g2 h run).0 q le (omega arith) in
      (record p { flags = 0x030A; ref_count = 1 }, now, refl, refl);
  other_frames = λ q p out e. unused q p (
      sym (
        (taken-pages (last - first) first g2 h run).1 q (elim (dec_lt q first) [
          | yes lt ↦ inl lt
          | no ge ↦ inr (elim out [ inl lt ↦ absurd (ge lt) | inr le ↦ omega arith ])
        ]))
      ∙ e);
}

module _ {s t n top : ℕ} {g : Manager} (end_krnl : ℕ) (b : IsBuilding s t n top g) (ordered : s < t)
    (some_zone : 0 < length g.zones) (size : length g.bitmap ≡ bitmap_words top)
    (few : top < 2 ^ 43) (free : g.free_2m_pages ≡ 0) (test_fits : s + 10 ≤ top)
    (n_le : n ≤ top) where
  abbrev placement : Placement
  placement = place_arrays end_krnl top (length g.zones)

  abbrev first : ℕ
  first = kernel_start placement

  abbrev last : ℕ
  last = kernel_end placement

  settle_lem :
      t ≤ top
      → last ≤ t
      → (h : Manager) × (settle end_krnl top g ≡ ok (h, placement)) × IsSettled g h s first last
  settle_lem t_le within =
      let (p, at_0) = get_elem?_of_lt g.pages 0 (omega (arith, b.size)) in
      let (w0, clear_0, zero_bit) = clear_bit_lem g.bitmap 0 (omega (arith, size)) in
      let (zone, at_z) = get_elem?_of_lt g.zones 0 some_zone in
      let start : add64 zone.start_pfn 10 ≡ s + 10 =
        omega (arith, first_start b ordered zone at_z) in
      let (w1, set_it, on) = set_bit_lem w0 (s + 10) (omega (arith, size, zero_bit.same_length)) in
      let (w2, clear_it, off) =
        clear_bit_lem w1 (s + 10) (omega (arith, size, zero_bit.same_length, on.same_length)) in
      let b' = claimed-IsBuilding b ordered some_zone w2 in
      let g2 = claimed b ordered some_zone w2 in
      let same : length w2 ≡ bitmap_words top =
        off.same_length ∙ (on.same_length ∙ (zero_bit.same_length ∙ size)) in
      let covers : length g2.pages ≤ 64 * length w2 = omega (arith, b'.size, same) in
      let room = IsBuilding-HaveRoom last first b' (omega (arith, b'.size)) within in
      let (h, taken, done) =
        take_kernel_pages_lem last (last - first) first g2 (λ some. omega (arith, b'.size))
          (omega arith) covers room (omega arith) in
      (
        flush h,
        settle_run end_krnl top (s + 10) g p zone w0 w1 w2 h at_0 clear_0 at_z start set_it clear_it
            taken,
        done-IsSettled g g2 h s first last w0 w1
            (λ z y e. omega (arith, (b'.whole z y e).ends, b'.size)) done taken
            (λ q p e. (b'.frames q p e).unused)
            (IsBuilding-IsWellFormed {g = g2} b' covers (omega (arith, same))) refl zero_bit on off,
      )

-- The memory map is one that `init_memory` can work with: every type has a name, the usable parts
-- ascend without an overlap, the first zone goes from page `s` to page `t`, the page of the test of the
-- bitmap exists, and the arrays of the kernel end with the first zone.
pub record IsBootable (end_krnl : ℕ) (es : List E820Entry) (s t : ℕ) : Type 0 where
  pub named : AreNamed es
  pub ascending : AreAscending 0 es
  pub first : first_zone es ≡ some (s, t)
  pub test_fits : s + 10 ≤ top_pfn es
  pub arrays_fit : kernel_end (place_arrays end_krnl (top_pfn es) (count_zones es)) ≤ t

-- What `init_memory` leaves behind: a well-formed manager with believable counts; the zones of the
-- map, by type, start and end, none of them ending behind the last frame; the arrays in their places; a
-- bitmap that marks the kernel's pages and the pages that are not usable, but for page 0 and the page
-- of the test; and frames of which just those of the kernel's pages are in use, once each, with the
-- flags PAGE_USED, PAGE_KERNEL, PAGE_PRESENT and PAGE_WRITABLE.
pub record IsInitialised (end_krnl : ℕ) (es : List E820Entry) (s : ℕ) (r : Initialised)
    : Type 0 where
  pub placed : r.layout ≡ place_arrays end_krnl (top_pfn es) (count_zones es)
  pub well_formed : IsWellFormed r.manager
  pub fair : HasFairCounts r.manager
  pub zone_count : length r.manager.zones ≡ count_zones es
  pub zones : map span_of r.manager.zones ≡ zones_from es
  pub within :
      (z : ℕ) (zone : Zone)
      → get_elem? r.manager.zones z ≡ some zone
      → zone.end_pfn < length r.manager.pages
  pub bits :
      (q : ℕ)
      → marked r.manager.bitmap q ≡ mark_of r.layout (s + 10) (if is_reserved es q then 1 else 0) q
  pub kernel_frames :
      (q : ℕ)
      → is_kernel_page r.layout q ≡ true
      → (p : Page) × (get_elem? r.manager.pages q ≡ some p) × (p.flags ≡ 0x030A) × (p.ref_count ≡ 1)
  pub other_frames :
      (q : ℕ) (p : Page)
      → is_kernel_page r.layout q ≡ false
      → get_elem? r.manager.pages q ≡ some p
      → Unused p

new_pages-IsFresh :
    (n lo i : ℕ) (p : Page) → get_elem? (new_pages n lo) i ≡ some p → IsFresh 0 (lo + i) p
unfolding new_pages
new_pages-IsFresh zero lo i p e = cc
new_pages-IsFresh (suc n) lo zero p e =
    let page : new_page lo ≡ p = some-injective e in
    subst (IsFresh 0 (lo + 0)) page
      (record { number = omega arith; link = λ z e'. absurd (cc e'); unused = refl })
new_pages-IsFresh (suc n) lo (suc i) p e =
    subst (λ k. IsFresh 0 k p) (omega arith) (new_pages-IsFresh n (lo + 1) i p e)

-- Before the zones are built.
start-IsBuilding :
    (s t top : ℕ) (words : List ℕ) (pages : List Page)
    → pages ≡ new_pages (top + 1) 0
    → length pages ≡ top + 1
    → IsBuilding s t 0 top (before_zones words pages)
start-IsBuilding s t top words pages new size = record {
  size = size;
  frames = λ i p e.
      subst (λ k. IsFresh 0 k p) (omega arith)
        (new_pages-IsFresh (top + 1) 0 i p (ap (λ ps. get_elem? ps i) (sym new) ∙ e));
  placed = λ z zone e. cc e;
  whole = λ z zone e. cc e;
  order = λ z zone e. cc e;
}

-- The run of `init_memory`, step by step.
init_run :
    (end_krnl : ℕ) (pml4 : List ℕ) (entries : List E820Entry) (totals : Totals) (words : List ℕ)
    (pages : List Page) (g h : Manager) (l : Placement)
    → prepare (stored_entries entries) ≡ ok (totals, (words, pages))
    → build_zones totals.max_pfn (stored_entries entries) (before_zones words pages) ≡ ok g
    → settle end_krnl totals.max_pfn g ≡ ok (h, l)
    → init_memory end_krnl pml4 entries
      ≡ ok (record { totals = totals; manager = h; layout = l; pml4 = clear_entries 10 0 pml4 })
unfolding init_memory
init_run end_krnl pml4 entries totals words pages g h l prepared built settled =
    rw (prepared, built, settled) refl

arrays_fit_at :
    {end_krnl : ℕ} {es : List E820Entry} {s t : ℕ}
    → IsBootable end_krnl es s t
    → (top k : ℕ) → top ≡ top_pfn es
    → k ≡ count_zones es
    → kernel_end (place_arrays end_krnl top k) ≤ t
arrays_fit_at boot top k at_top zones = rw (at_top, zones) boot.arrays_fit

-- Behind the preparation: the zones and the rest.
rest_lem :
    (end_krnl : ℕ) (es : List E820Entry) (s t top : ℕ) (words : List ℕ) (pages : List Page)
    → IsBootable end_krnl es s t
    → s < t
    → t ≤ top
    → top ≡ top_pfn es
    → length words ≡ bitmap_words top
    → pages ≡ new_pages (top + 1) 0
    → length pages ≡ top + 1
    → (g : Manager) × (h : Manager) × (build_zones top es (before_zones words pages) ≡ ok g)
      × (settle end_krnl top g ≡ ok (h, place_arrays end_krnl top (length g.zones)))
      × (length g.zones ≡ count_zones es)
      × (g.bitmap ≡ words)
      × (map span_of g.zones ≡ zones_from es)
      × IsSettled g h s
          (kernel_start (place_arrays end_krnl top (length g.zones)))
          (kernel_end (place_arrays end_krnl top (length g.zones)))
rest_lem end_krnl es s t top words pages boot ordered t_le at_top size new count =
    let b0 = start-IsBuilding s t top words pages new count in
    let ends : EndBy top es = subst (λ k. EndBy k es) (sym at_top) (EndBy-top_pfn es) in
    let (g, m, built, (b, same, free, more), reach, some_zone, m_le) =
      build_zones_lem 0 es (before_zones words pages) b0 (omega arith) ends boot.ascending
        (inl (refl, boot.first)) in
    let zones : length g.zones ≡ count_zones es = omega (arith, more) in
    let fit : kernel_end (place_arrays end_krnl top (length g.zones)) ≤ t =
      arrays_fit_at boot top (length g.zones) at_top zones in
    let (h, settled, is) =
      settle_lem {g = g} end_krnl b ordered some_zone (ap length same ∙ size)
        (omega (arith, top_pfn-lt es)) free (omega (arith, boot.test_fits)) m_le t_le fit in
    (
      g,
      h,
      built,
      settled,
      zones,
      same,
      built-zones top es (before_zones words pages) g refl ends built,
      is,
    )

-- For a memory map that it can work with, `init_memory` neither faults nor halts, and leaves the
-- manager, its zones, its frames and the bitmap as `IsInitialised` says.
pub init_memory_lem :
    (end_krnl : ℕ) (pml4 : List ℕ) (entries : List E820Entry) (s t : ℕ)
    → IsBootable end_krnl (stored_entries entries) s t
    → (r : Initialised) × (init_memory end_krnl pml4 entries ≡ ok r)
      × IsInitialised end_krnl (stored_entries entries) s r
init_memory_lem end_krnl pml4 entries s t boot =
    let es = stored_entries entries in
    let (totals, words, pages, prepared, at_top, size, marks, new, count) =
      prepare_run es boot.named in
    let (ordered, t_le) = first_zone_bounds (top_pfn es) s t es (EndBy-top_pfn es) boot.first in
    let (g, h, built, settled, zones, same, spans, is) =
      rest_lem end_krnl es s t totals.max_pfn words pages boot ordered (omega arith) at_top size new
        count in
    let l = place_arrays end_krnl totals.max_pfn (length g.zones) in
    (
      record { totals = totals; manager = h; layout = l; pml4 = clear_entries 10 0 pml4 },
      init_run end_krnl pml4 entries totals words pages g h l prepared built settled,
      record {
        placed =
            ap (place_arrays end_krnl totals.max_pfn) zones
            ∙ ap (λ m. place_arrays end_krnl m (count_zones es)) at_top;
        well_formed = is.well_formed;
        fair = is.fair;
        zone_count = is.zone_count ∙ zones;
        zones = is.spans ∙ spans;
        within = is.within;
        bits = λ q.
            is.bits q
            ∙ (ap (λ m. final_mark (kernel_start l) (kernel_end l) (s + 10) m q)
                  (ap (λ w. marked w q) same ∙ marks q)
                ∙ ap
                    (λ kernel.
                      if kernel
                      then 1
                      else if q == 0 || q == s + 10
                      then 0
                      else if is_reserved es q
                      then 1
                      else 0)
                    (is_kernel_page_lem l q));
        kernel_frames = λ q kernel.
            let code = is_kernel_page_lem l q ∙ kernel in
            is.kernel_frames q (ground arith) (ground arith);
        other_frames = λ q p other e.
            let code = is_kernel_page_lem l q ∙ other in
            is.other_frames q p
              (elim (dec_lt q (kernel_start l)) [ yes lt ↦ inl lt | no ge ↦ inr (ground arith) ]) e;
      },
    )
