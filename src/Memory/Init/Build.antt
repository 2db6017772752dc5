-- ===== src/Memory/Init/Build.antt =====
-- The loop of `init_memory` of kernel/memory.c over the firmware's map, which builds the zones.
use knos.Base.{
  ℕ, ◌+◌, ◌≤◌, ◌<◌, ◌≡◌, refl, ap, ◌∙◌, ◌⊎◌, inl, inr, Bool, true, false, ◌&&◌, Bool-cases, Option,
  none, some, some-injective, List, [], ◌∷◌, ok, ◌>>=◌, arith, length, ltb, leb, ◌==◌,
  if◌then◌else◌,
}
use knos.Base.Word.{shr}
use knos.Memory.{ZoneType, dma, normal, Manager, page_2m_shift}
use knos.Memory.E820.{E820Entry, base_of, end_of, round_up, round_down}
use knos.Memory.E820.Reserved.{EndBy}
use knos.Memory.Init.{dma_boundary, add_zone, zones_of, entry_zones, build_zones}
use knos.Memory.Init.Zones.{IsBuilding, add_zone_lem}

-- The whole pages of an entry.
abbrev pub first_pfn : E820Entry → ℕ
first_pfn e = shr (round_up (base_of e)) page_2m_shift

abbrev pub last_pfn : E820Entry → ℕ
last_pfn e = shr (round_down (end_of e)) page_2m_shift

-- Usable memory with at least one whole page.
unfoldable pub has_pages : E820Entry → Bool
has_pages e = e.entry_type == 1 && ltb (round_up (base_of e)) (round_down (end_of e))

-- The page of the 16 MB boundary.
abbrev pub dma_pfn : ℕ
dma_pfn = 8

abbrev pub is_split : E820Entry → Bool
is_split e = ltb (first_pfn e) dma_pfn && ltb dma_pfn (last_pfn e)

-- The first zone that the map gives, from its first page to behind its last.
unfoldable pub first_zone : List E820Entry → Option (ℕ × ℕ)
first_zone [] = none
first_zone (e ∷ es) = elim (has_pages e) [
  | true ↦ some (first_pfn e, if is_split e then dma_pfn else last_pfn e)
  | false ↦ first_zone es
]

-- The number of zones.
unfoldable pub count_zones : List E820Entry → ℕ
count_zones [] = 0
count_zones (e ∷ es) = elim (has_pages e) [
  | true ↦ (if is_split e then 2 else 1) + count_zones es
  | false ↦ count_zones es
]

-- The usable parts ascend from page `n` on, and do not overlap.
unfoldable pub AreAscending : ℕ → List E820Entry → Type 0
AreAscending n [] = n ≤ n
AreAscending n (e ∷ es) = elim (has_pages e) [
  | true ↦ (n ≤ first_pfn e) × AreAscending (last_pfn e) es
  | false ↦ AreAscending n es
]

-- `n` is where the zones so far end.
abbrev pub IsBuilt : ℕ → ℕ → ℕ → ℕ → Manager → Manager → ℕ → Type 0
IsBuilt s t n top g g' added =
    IsBuilding s t n top g'
    × (g'.bitmap ≡ g.bitmap)
    × (g'.free_2m_pages ≡ g.free_2m_pages)
    × (length g'.zones ≡ length g.zones + added)

abbrev pub IsNext : ℕ → ℕ → ℕ → ℕ → ℕ → Type 0
IsNext s t k lo hi = ((k ≡ 0) × (lo ≡ s) × (hi ≡ t)) ⊎ ((0 < k) × (t ≤ lo))

-- Behind the first zone, or any other, the next one starts at or behind `t`.
behind : (s t k lo hi : ℕ) → IsNext s t k lo hi → lo < hi → t ≤ hi
behind s t k lo hi (inl (none_yet, at_s, at_t)) h = omega arith
behind s t k lo hi (inr (some_zone, le)) h = omega arith

-- What the first zone may be: the next one, if there is none yet, or one of those that are there.
abbrev pub IsExpected : ℕ → ℕ → ℕ → ℕ → List E820Entry → Type 0
IsExpected s t n k es = ((k ≡ 0) × (first_zone es ≡ some (s, t))) ⊎ ((0 < k) × (t ≤ n))

expected-IsNext :
    (s t n k lo hi : ℕ)
    → n ≤ lo
    → ((k ≡ 0) × (◌≡◌ {A = Option (ℕ × ℕ)} (some (lo, hi)) (some (s, t)))) ⊎ ((0 < k) × (t ≤ n))
    → IsNext s t k lo hi
expected-IsNext s t n k lo hi after (inl (none_yet, e)) =
    inl (none_yet, ap (λ p. p.0) (some-injective e), ap (λ p. p.1) (some-injective e))
expected-IsNext s t n k lo hi after (inr (some_zone, le)) = inr (some_zone, omega arith)

-- The type of the zone of an entry that is not split.
abbrev pub kind_of : E820Entry → ZoneType
kind_of e = if ltb (round_up (base_of e)) dma_boundary then dma else normal

-- The zones of an entry with pages, in page numbers.
module _ (top : ℕ) (e : E820Entry) (g : Manager) (pages : has_pages e ≡ true) where
  pub entry_split :
      is_split e ≡ true
      → entry_zones top e g
        ≡ (add_zone dma (first_pfn e) dma_pfn g >>= λ g'. add_zone normal dma_pfn (last_pfn e) g')
  unfolding entry_zones zones_of has_pages
  entry_split cut =
      let usable : (e.entry_type == 1) ≡ true = ground arith in
      let some_pages : leb (round_down (end_of e)) (round_up (base_of e)) ≡ false = ground arith in
      let low : ltb (round_up (base_of e)) dma_boundary ≡ true = ground arith in
      let high : ltb dma_boundary (round_down (end_of e)) ≡ true = ground arith in
      rw (usable, some_pages, low, high) refl

  pub entry_single :
      is_split e ≡ false
      → last_pfn e ≤ top
      → entry_zones top e g ≡ add_zone (kind_of e) (first_pfn e) (last_pfn e) g
  unfolding entry_zones zones_of has_pages
  entry_single whole inside =
      let usable : (e.entry_type == 1) ≡ true = ground arith in
      let some_pages : leb (round_down (end_of e)) (round_up (base_of e)) ≡ false = ground arith in
      let uncut : (ltb (round_up (base_of e)) dma_boundary
            && ltb dma_boundary (round_down (end_of e)))
          ≡ false =
        ground arith in
      let below_top : ltb top (last_pfn e) ≡ false = ground arith in
      rw (usable, some_pages, uncut, below_top) refl

  pages_lt : first_pfn e < last_pfn e
  unfolding has_pages
  pages_lt = ground arith

module _ {s t n top : ℕ} {g : Manager} (e : E820Entry) (pages : has_pages e ≡ true)
    (b : IsBuilding s t n top g) (after : n ≤ first_pfn e) (inside : last_pfn e ≤ top) where
  split_lem :
      is_split e ≡ true
      → IsNext s t (length g.zones) (first_pfn e) dma_pfn
      → (g' : Manager) × (entry_zones top e g ≡ ok g') × IsBuilt s t (last_pfn e) top g g' 2
  split_lem cut place =
      let below : first_pfn e < dma_pfn = ground arith in
      let above : dma_pfn < last_pfn e = ground arith in
      let (g1, e1, b1, same1, free1, more1) =
        add_zone_lem dma (first_pfn e) dma_pfn b after below (omega arith) place in
      let (g2, e2, b2, same2, free2, more2) =
        add_zone_lem normal dma_pfn (last_pfn e) b1 (omega arith) above (omega arith)
          (inr (omega (arith, more1), behind s t _ (first_pfn e) dma_pfn place below)) in
      (
        g2,
        entry_split top e g pages cut
            ∙ (ap (λ r. r >>= add_zone normal dma_pfn (last_pfn e)) e1 ∙ e2),
        (b2, same2 ∙ same1, free2 ∙ free1, omega (arith, more1, more2)),
      )

  single_lem :
      is_split e ≡ false
      → IsNext s t (length g.zones) (first_pfn e) (last_pfn e)
      → (g' : Manager) × (entry_zones top e g ≡ ok g') × IsBuilt s t (last_pfn e) top g g' 1
  single_lem whole place =
      let one = entry_single top e g pages whole inside in
      let (g1, e1, b1, same, free, more) =
        add_zone_lem (kind_of e) (first_pfn e) (last_pfn e) b after (pages_lt top e g pages)
          (omega arith) place in
      (g1, one ∙ e1, (b1, same, free, more))

  entry_zones_lem :
      IsNext s t (length g.zones) (first_pfn e) (if is_split e then dma_pfn else last_pfn e)
      → (g' : Manager) × (entry_zones top e g ≡ ok g')
        × IsBuilt s t (last_pfn e) top g g' (if is_split e then 2 else 1)
  entry_zones_lem place = elim (Bool-cases (is_split e)) [
    | inl cut ↦ rw cut (split_lem cut (rw cut at place))
    | inr whole ↦ rw whole (single_lem whole (rw whole at place))
  ]

  -- The end of the first part is not behind the end of the entry.
  part_le : (if is_split e then dma_pfn else last_pfn e) ≤ last_pfn e
  part_le = ground arith

  part_lt : first_pfn e < (if is_split e then dma_pfn else last_pfn e)
  part_lt = ground (arith, pages_lt top e g pages)

-- An entry without pages adds nothing.
pub skip_lem :
    (top : ℕ) (e : E820Entry) (g : Manager) → has_pages e ≡ false → entry_zones top e g ≡ ok g
unfolding entry_zones has_pages
skip_lem top e g none_there = elim (Bool-cases (e.entry_type == 1)) [
  | inl usable ↦
      let no_pages : leb (round_down (end_of e)) (round_up (base_of e)) ≡ true = ground arith in
      rw (usable, no_pages) refl
  | inr kept ↦ rw kept refl
]

count_pages :
    (e : E820Entry) (es : List E820Entry)
    → has_pages e ≡ true
    → count_zones (e ∷ es) ≡ (if is_split e then 2 else 1) + count_zones es
unfolding count_zones
count_pages e es pages = rw (pages, count_zones) refl

count_empty :
    (e : E820Entry) (es : List E820Entry)
    → has_pages e ≡ false
    → count_zones (e ∷ es) ≡ count_zones es
unfolding count_zones
count_empty e es empty = rw (empty, count_zones) refl

ascending_pages :
    (n : ℕ) (e : E820Entry) (es : List E820Entry)
    → has_pages e ≡ true
    → AreAscending n (e ∷ es)
    → (n ≤ first_pfn e) × AreAscending (last_pfn e) es
unfolding AreAscending
ascending_pages n e es pages asc = rw (pages, AreAscending) at asc

ascending_empty :
    (n : ℕ) (e : E820Entry) (es : List E820Entry)
    → has_pages e ≡ false
    → AreAscending n (e ∷ es)
    → AreAscending n es
unfolding AreAscending
ascending_empty n e es empty asc = rw (empty, AreAscending) at asc

expected_pages :
    (s t n k : ℕ) (e : E820Entry) (es : List E820Entry)
    → has_pages e ≡ true
    → n ≤ first_pfn e
    → IsExpected s t n k (e ∷ es)
    → IsNext s t k (first_pfn e) (if is_split e then dma_pfn else last_pfn e)
unfolding first_zone
expected_pages s t n k e es pages after expected =
    expected-IsNext s t n k (first_pfn e) _ after (rw (pages, first_zone) at expected)

skip_empty :
    (s t n k : ℕ) (e : E820Entry) (es : List E820Entry)
    → has_pages e ≡ false
    → IsExpected s t n k (e ∷ es)
    → IsExpected s t n k es
unfolding first_zone
skip_empty s t n k e es empty expected = rw (empty, first_zone) at expected

-- Where the usable parts ascend, the loop ends without a fault and without halting, and leaves whole
-- zones in order, as many as the map asks for.
pub build_zones_lem :
    {s t top : ℕ} (n : ℕ) (es : List E820Entry) (g : Manager)
    → IsBuilding s t n top g
    → n ≤ top
    → EndBy top es
    → AreAscending n es
    → IsExpected s t n (length g.zones) es
    → (g' : Manager) × (m : ℕ) × (build_zones top es g ≡ ok g')
      × IsBuilt s t m top g g' (count_zones es)
      × (t ≤ m)
      × (0 < length g'.zones)
      × (m ≤ top)
unfolding EndBy build_zones AreAscending count_zones first_zone
build_zones_lem n [] g b n_le ends asc (inl (none_yet, e)) = absurd (cc e)
build_zones_lem n [] g b n_le ends asc (inr (some_zone, le)) =
    (g, n, refl, (b, refl, refl, omega arith), le, some_zone, n_le)
build_zones_lem {s = s} {t = t} {top = top} n (e ∷ es) g b n_le (end, ends) asc expected =
    elim (Bool-cases (has_pages e)) [
      | inl pages ↦
          let (after, rest) = ascending_pages n e es pages asc in
          let inside : last_pfn e ≤ top = omega arith in
          let place = expected_pages s t n (length g.zones) e es pages after expected in
          let (g1, e1, (b1, same1, free1, more1)) = entry_zones_lem e pages b after inside place in
          let reached : t ≤ last_pfn e = omega (
            arith,
            part_le e pages b after inside,
            behind s t (length g.zones) (first_pfn e) _ place (part_lt e pages b after inside),
          ) in
          let (g2, m, e2, (b2, same2, free2, more2), le, some_zone, m_le) =
            build_zones_lem (last_pfn e) es g1 b1 inside ends rest
              (inr (ground (arith, more1), reached)) in
          (
            g2,
            m,
            ap (λ r. r >>= build_zones top es) e1 ∙ e2,
            (b2, same2 ∙ same1, free2 ∙ free1, omega (arith, more1, more2, count_pages e es pages)),
            le,
            some_zone,
            m_le,
          )
      | inr empty ↦
          let (g2, m, e2, (b2, same2, free2, more2), le, some_zone, m_le) =
            build_zones_lem n es g b n_le ends (ascending_empty n e es empty asc)
              (skip_empty s t n (length g.zones) e es empty expected) in
          (
            g2,
            m,
            ap (λ r. r >>= build_zones top es) (skip_lem top e g empty) ∙ e2,
            (b2, same2, free2, omega (arith, more2, count_empty e es empty)),
            le,
            some_zone,
            m_le,
          )
    ]

part_bounds :
    (e : E820Entry)
    → has_pages e ≡ true
    → (first_pfn e < (if is_split e then dma_pfn else last_pfn e))
      × ((if is_split e then dma_pfn else last_pfn e) ≤ last_pfn e)
unfolding has_pages
part_bounds e pages = let some_pages : first_pfn e < last_pfn e = ground arith in ground arith

-- The first zone has a page, and ends where the map does at the latest.
pub first_zone_bounds :
    (top s t : ℕ) (es : List E820Entry)
    → EndBy top es
    → first_zone es ≡ some (s, t)
    → (s < t) × (t ≤ top)
unfolding EndBy first_zone
first_zone_bounds top s t [] ends e = cc
first_zone_bounds top s t (e ∷ es) (end, ends) found = elim (Bool-cases (has_pages e)) [
  | inl pages ↦
      let (lt, le) = part_bounds e pages in
      let zone : ◌≡◌ {A = Option (ℕ × ℕ)}
          (some (first_pfn e, if is_split e then dma_pfn else last_pfn e)) (some (s, t)) =
        rw (pages, first_zone) at found in
      let at_s = ap (λ p. p.0) (some-injective zone) in
      let at_t = ap (λ p. p.1) (some-injective zone) in
      (omega (arith, at_s, at_t), omega (arith, at_t))
  | inr empty ↦ first_zone_bounds top s t es ends (rw (empty, first_zone) at found)
]
