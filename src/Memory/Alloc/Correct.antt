-- ===== src/Memory/Alloc/Correct.antt =====
-- `alloc_pages` as a whole, for requests of 1 to 64 pages.
use mathlib.Core.Path.{subst}
use native.Mathlib.Decide.{dec_lt}
use knos.Base.{
  ℕ, ◌+◌, ◌-◌, ◌*◌, ◌^◌, ◌≤◌, ◌<◌, ◌≡◌, ◌⊎◌, inl, inr, refl, sym, ◌∙◌, ap, false, Option, none,
  some, ◌∷◌, Result, ok, arith, get_elem?, set, get_elem?-set_self, get_elem?-set_ne, map-set_same,
  lt_of_get_elem?, ◌==◌, Bool-cases, ==→eq,
}
use knos.Base.Word.{sub64}
use knos.Memory.{Zone, ZoneType, Manager, not_enough_pages, not_contiguous}
use knos.Memory.WellFormed.{
  Unused, SameShape-trans, zone_shape, IsWellFormed, IsTracked, IsWellFormed-of_SameShape,
}
use knos.Memory.Bitmap.Laws.{marked}
use knos.Memory.Search.{search}
use knos.Memory.Search.Sound.{IsFreeRun, search_lem}
use knos.Memory.Alloc.{find_zone, mark, charge, search_fuel, alloc_in, alloc_pages}
use knos.Memory.Alloc.Choice.{Offers, NoOffer, find_zone_lem}
use knos.Memory.Alloc.Mark.{AreUnused, IsMarked, mark_lem}

-- The counts of free pages are believable: no zone claims more free pages than it has.
pub record HasFairCounts (g : Manager) : Type 0 where
  pub zone_fair :
      (z : ℕ) (zone : Zone)
      → get_elem? g.zones z ≡ some zone
      → zone.start_pfn + zone.nr_free ≤ zone.end_pfn
  pub free_fits : g.free_2m_pages < 2 ^ 64

-- `h` is `g` after `nr` pages from `b` on were given to the caller, out of zone `z`, which was
-- `zone`. The pages are a free run inside that zone; they are now marked and in use, with one
-- reference each. The counts of free pages go down by twice the number of pages.
pub record IsAllocated (g : Manager) (t : ZoneType) (nr flags z : ℕ) (zone : Zone) (b : ℕ)
    (h : Manager) : Type 0 where
  pub at_z : get_elem? g.zones z ≡ some zone
  pub offered : Offers zone t nr
  pub first : NoOffer g.zones t nr z
  pub nonzero : 0 < b
  pub above : zone.start_pfn ≤ b
  pub below : b + nr ≤ zone.end_pfn
  pub was_free : IsFreeRun g.bitmap b nr
  pub effect : IsMarked g z zone b nr (2 * nr) flags h

-- The statistics behind the loop are charged a second time.
module _ {g : Manager} {z : ℕ} {zone : Zone} {lo n flags : ℕ} {h : Manager}
    (at_z : get_elem? g.zones z ≡ some zone) (few : n ≤ 64)
    (effect : IsMarked g z zone lo n n flags h) where
  abbrev charged_zone : Zone
  charged_zone = record zone { nr_free = sub64 zone.nr_free n }

  abbrev charged : Manager
  charged = record h {
    zones = set h.zones z (record zone { nr_free = sub64 (sub64 zone.nr_free n) n });
    free_2m_pages = sub64 h.free_2m_pages n;
  }

  charge_lem : charge h z n ≡ ok charged
  unfolding charge
  charge_lem = rw effect.zone_charged refl

  charged-IsMarked : IsMarked g z zone lo n (2 * n) flags charged
  charged-IsMarked = record {
    shape = SameShape-trans effect.shape (record {
      bitmap_same = refl;
      pages_same = refl;
      zones_same = map-set_same zone_shape h.zones z charged_zone _ effect.zone_charged refl;
    });
    bits_in = effect.bits_in;
    bits_out = effect.bits_out;
    frames_in = effect.frames_in;
    frames_out = effect.frames_out;
    zone_charged =
        get_elem?-set_self h.zones z _ (lt_of_get_elem? h.zones z charged_zone effect.zone_charged)
        ∙ ap (λ n. some (record zone { nr_free = n })) (omega arith);
    zones_kept = λ y ne. get_elem?-set_ne h.zones z y _ ne ∙ effect.zones_kept y ne;
    free_charged = omega (arith, effect.free_charged);
    trace_kept = effect.trace_kept;
  }

-- A free run inside a zone is made of frames that are not in use.
AreUnused-of_free :
    {g : Manager} (z : ℕ) (zone : Zone) (b nr : ℕ)
    → IsWellFormed g
    → get_elem? g.zones z ≡ some zone
    → zone.start_pfn ≤ b
    → b + nr ≤ zone.end_pfn
    → IsFreeRun g.bitmap b nr
    → AreUnused g z b nr
AreUnused-of_free {g} z zone b nr wf at_z above below free i le lt =
    let (p, at_i, back) = (wf.placed z zone at_z).frames i (omega arith) (omega arith) in
    let e : b + (i - b) ≡ i = omega arith in
    let clear : marked g.bitmap i ≡ 0 = ap (marked g.bitmap) (sym e) ∙ free (i - b) (omega arith) in
    (p, at_i, back, wf.tracked i p at_i clear)

-- What `alloc_pages` can return: NULL because no zone offers the pages, NULL because the search in
-- the first zone that offers them found no run, or the first frame of a run.
abbrev pub Allocates : Manager → ZoneType → ℕ → ℕ → Result (Option ℕ × Manager) → Type 0
Allocates g t nr flags r =
    (((k : ℕ) → NoOffer g.zones t nr k)
      × (r ≡ ok (none, record g { trace = not_enough_pages t nr ∷ g.trace })))
    ⊎ ((z : ℕ) × (zone : Zone) × (get_elem? g.zones z ≡ some zone)
        × Offers zone t nr
        × NoOffer g.zones t nr z
        × (r ≡ ok (none, record g { trace = not_contiguous t nr ∷ g.trace })))
    ⊎ ((z : ℕ) × (zone : Zone) × (b : ℕ) × (h : Manager) × (r ≡ ok (some b, h))
        × IsAllocated g t nr flags z zone b h)

module _ (g : Manager) (t : ZoneType) (nr flags z : ℕ) (zone : Zone)
    (at_z : get_elem? g.zones z ≡ some zone) where
  abbrev search_zone : Result ℕ
  search_zone = search g.bitmap zone.end_pfn nr (search_fuel g.bitmap) zone.start_pfn

  alloc_in-none :
      search_zone ≡ ok 0
      → alloc_in g t nr flags (some z)
        ≡ ok (none, record g { trace = not_contiguous t nr ∷ g.trace })
  unfolding alloc_in
  alloc_in-none e = rw (at_z, e) refl

  alloc_in-some :
      (b : ℕ) (h k : Manager)
      → search_zone ≡ ok b
      → (b == 0) ≡ false
      → mark g b flags nr 0 ≡ ok h
      → charge h z nr ≡ ok k
      → alloc_in g t nr flags (some z) ≡ ok (some b, k)
  unfolding alloc_in
  alloc_in-some b h k e ne marked_eq charged_eq = rw (at_z, e, ne, marked_eq, charged_eq) refl

  -- The call where the search has found a free run.
  pub alloc_in_found :
      IsWellFormed g
      → HasFairCounts g
      → 0 < nr
      → nr ≤ 64
      → Offers zone t nr
      → NoOffer g.zones t nr z
      → (b : ℕ) → search_zone ≡ ok b
      → (b == 0) ≡ false
      → zone.start_pfn ≤ b
      → b + nr ≤ zone.end_pfn
      → IsFreeRun g.bitmap b nr
      → (h : Manager) × (alloc_in g t nr flags (some z) ≡ ok (some b, h))
        × IsAllocated g t nr flags z zone b h
  alloc_in_found wf fair pos small offered first b found ne above below free =
      let placed = wf.placed z zone at_z in
      let (h, run, effect) =
        mark_lem z flags b nr 0 b g zone (omega arith) at_z
          (omega (arith, fair.zone_fair z zone at_z, wf.covers, placed.end_le, wf.addressable))
          fair.free_fits (omega (arith, wf.covers, placed.end_le)) wf.addressable
          (AreUnused-of_free z zone b nr wf at_z above below free) in
      (
        charged at_z small effect,
        alloc_in-some b h (charged at_z small effect) found ne run (charge_lem at_z small effect),
        record {
          at_z = at_z;
          offered = offered;
          first = first;
          nonzero = ground arith;
          above = above;
          below = below;
          was_free = free;
          effect = charged-IsMarked at_z small effect;
        },
      )

  -- The call in a zone that offers the pages.
  alloc_in_lem :
      IsWellFormed g
      → HasFairCounts g
      → 0 < nr
      → nr ≤ 64
      → Offers zone t nr
      → NoOffer g.zones t nr z
      → Allocates g t nr flags (alloc_in g t nr flags (some z))
  alloc_in_lem wf fair pos small offered first =
      let placed = wf.placed z zone at_z in
      let (b, found, outcome) =
        search_lem g.bitmap zone.start_pfn zone.end_pfn nr pos small
          (omega (arith, fair.zone_fair z zone at_z)) (omega (arith, wf.covers, placed.end_le))
          wf.addressable (search_fuel g.bitmap) zone.start_pfn (omega arith)
          (omega (arith, wf.covers, placed.end_le, placed.start_le)) (omega arith) in
      elim outcome [
        | inl e ↦ inr (inl (z, zone, at_z, offered, first, alloc_in-none (found ∙ ap ok e)))
        | inr (above, below, free) ↦ elim (Bool-cases (b == 0)) [
          | inl e ↦
              inr (inl (z, zone, at_z, offered, first, alloc_in-none (found ∙ ap ok (==→eq b 0 e))))
          | inr ne ↦
              let (h, e, a) =
                alloc_in_found wf fair pos small offered first b found ne above below free in
              inr (inr (z, zone, b, h, e, a))
        ]
      ]

alloc_pages-none :
    (g : Manager) (t : ZoneType) (nr flags : ℕ)
    → find_zone g.zones t nr 0 ≡ none
    → alloc_pages g t nr flags ≡ ok (none, record g { trace = not_enough_pages t nr ∷ g.trace })
unfolding alloc_pages
alloc_pages-none g t nr flags e = rw e refl

pub alloc_pages-some :
    (g : Manager) (t : ZoneType) (nr flags k : ℕ)
    → find_zone g.zones t nr 0 ≡ some k
    → alloc_pages g t nr flags ≡ alloc_in g t nr flags (some k)
unfolding alloc_pages
alloc_pages-some g t nr flags k e = rw e refl

-- In a well-formed manager with believable counts, `alloc_pages` for 1 to 64 pages ends without a
-- fault, with one of the outcomes of `Allocates`.
pub alloc_pages_lem :
    {g : Manager} (t : ZoneType) (nr flags : ℕ)
    → IsWellFormed g
    → HasFairCounts g
    → 0 < nr
    → nr ≤ 64
    → Allocates g t nr flags (alloc_pages g t nr flags)
alloc_pages_lem {g} t nr flags wf fair pos small = elim (find_zone_lem g.zones t nr 0) [
  | inl (e, refused) ↦ inl (refused, alloc_pages-none g t nr flags e)
  | inr (k, zone, e, at_k, offered, first) ↦
      let e' : 0 + k ≡ k = omega arith in
      let chosen : find_zone g.zones t nr 0 ≡ some k = e ∙ ap some e' in
      subst (Allocates g t nr flags) (sym (alloc_pages-some g t nr flags k chosen))
        (alloc_in_lem g t nr flags k zone at_k wf fair pos small offered first)
]

-- Frames that the bitmap tracked before a run is marked are tracked after it.
IsMarked-IsTracked :
    {g : Manager} {z : ℕ} {zone : Zone} {lo n charge flags : ℕ} {h : Manager}
    → IsMarked g z zone lo n charge flags h
    → IsTracked g
    → IsTracked h
IsMarked-IsTracked {lo} {n} effect tracked i p e clear = elim (dec_lt i lo) [
  | yes out ↦ outside (inl out)
  | no above ↦ elim (dec_lt i (lo + n)) [
    | yes below ↦ absurd (omega (arith, effect.bits_in i (omega arith) below))
    | no out ↦ outside (inr (omega arith))
  ]
]
  where
    outside : (i < lo) ⊎ (lo + n ≤ i) → Unused p
    outside out =
        tracked i p (sym (effect.frames_out i out) ∙ e) (sym (effect.bits_out i out) ∙ clear)

-- An allocation keeps the manager well-formed.
pub IsAllocated-IsWellFormed :
    {g : Manager} {t : ZoneType} {nr flags z : ℕ} {zone : Zone} {b : ℕ} {h : Manager}
    → IsAllocated g t nr flags z zone b h
    → IsWellFormed g
    → IsWellFormed h
IsAllocated-IsWellFormed a wf =
    IsWellFormed-of_SameShape a.effect.shape wf (IsMarked-IsTracked a.effect wf.tracked)
