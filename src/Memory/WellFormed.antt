-- ===== src/Memory/WellFormed.antt =====
-- The invariant of the memory manager that `alloc_pages` and `free_pages` rely on and keep.
use knos.Base.{
  ℕ, ◌*◌, ◌^◌, ◌≤◌, ◌<◌, ◌≡◌, sym, ◌∙◌, ap, refl, bit_and, Option, some, List, map, length,
  get_elem?, length-map, get_elem?-map, get_elem?-map_inv, arith,
}
use knos.Memory.{Page, Zone, Event, Manager, page_used}
use knos.Memory.Bitmap.Laws.{marked}

-- The frame's PAGE_USED flag is clear.
abbrev pub Unused : Page → Type 0
Unused p = bit_and p.flags page_used ≡ 0

-- A frame that has PAGE_USED is marked in the bitmap.
abbrev pub IsTracked : Manager → Type 0
IsTracked g = (i : ℕ) (p : Page) → get_elem? g.pages i ≡ some p → marked g.bitmap i ≡ 0 → Unused p

-- The zone lies in the frame array, its frames point back to it, and its count is a uint64_t.
pub record IsPlaced (g : Manager) (z : ℕ) (zone : Zone) : Type 0 where
  pub start_le : zone.start_pfn ≤ zone.end_pfn
  pub end_le : zone.end_pfn ≤ length g.pages
  pub frames :
      (i : ℕ)
      → zone.start_pfn ≤ i
      → i < zone.end_pfn
      → (p : Page) × (get_elem? g.pages i ≡ some p) × (p.zone ≡ some z)

pub record IsWellFormed (g : Manager) : Type 0 where
  pub covers : length g.pages ≤ 64 * length g.bitmap
  pub addressable : 64 * length g.bitmap < 2 ^ 64
  pub numbered : (i : ℕ) (p : Page) → get_elem? g.pages i ≡ some p → p.pfn ≡ i
  pub linked :
      (i : ℕ) (p : Page) (z : ℕ)
      → get_elem? g.pages i ≡ some p
      → p.zone ≡ some z
      → z < length g.zones
  pub placed : (z : ℕ) (zone : Zone) → get_elem? g.zones z ≡ some zone → IsPlaced g z zone
  pub tracked : IsTracked g

-- What never changes in a frame and in a zone once `init_memory` is done.
abbrev pub page_shape : Page → Option ℕ × ℕ
page_shape p = (p.zone, p.pfn)

abbrev pub zone_shape : Zone → ℕ × ℕ
zone_shape zone = (zone.start_pfn, zone.end_pfn)

pub record SameShape (g h : Manager) : Type 0 where
  pub bitmap_same : length h.bitmap ≡ length g.bitmap
  pub pages_same : map page_shape h.pages ≡ map page_shape g.pages
  pub zones_same : map zone_shape h.zones ≡ map zone_shape g.zones

pub SameShape-refl : (g : Manager) → SameShape g g
SameShape-refl g = record { bitmap_same = refl; pages_same = refl; zones_same = refl }

pub SameShape-trans : {g h k : Manager} → SameShape g h → SameShape h k → SameShape g k
SameShape-trans a b = record {
  bitmap_same = b.bitmap_same ∙ a.bitmap_same;
  pages_same = b.pages_same ∙ a.pages_same;
  zones_same = b.zones_same ∙ a.zones_same;
}

module _ {g h : Manager} (same : SameShape g h) where
  pub length-pages_same : length h.pages ≡ length g.pages
  length-pages_same =
      sym (length-map page_shape h.pages)
      ∙ ap length same.pages_same
      ∙ length-map page_shape g.pages

  pub length-zones_same : length h.zones ≡ length g.zones
  length-zones_same =
      sym (length-map zone_shape h.zones)
      ∙ ap length same.zones_same
      ∙ length-map zone_shape g.zones

  page_before :
      (i : ℕ) (p : Page)
      → get_elem? h.pages i ≡ some p
      → (q : Page) × (get_elem? g.pages i ≡ some q) × (page_shape q ≡ page_shape p)
  page_before i p e =
      get_elem?-map_inv page_shape g.pages i (page_shape p)
        (ap (λ ps. get_elem? ps i) (sym same.pages_same) ∙ get_elem?-map page_shape h.pages i p e)

  page_after :
      (i : ℕ) (p : Page)
      → get_elem? g.pages i ≡ some p
      → (q : Page) × (get_elem? h.pages i ≡ some q) × (page_shape q ≡ page_shape p)
  page_after i p e =
      get_elem?-map_inv page_shape h.pages i (page_shape p)
        (ap (λ ps. get_elem? ps i) same.pages_same ∙ get_elem?-map page_shape g.pages i p e)

  pub zone_before :
      (z : ℕ) (zone : Zone)
      → get_elem? h.zones z ≡ some zone
      → (old : Zone) × (get_elem? g.zones z ≡ some old) × (zone_shape old ≡ zone_shape zone)
  zone_before z zone e =
      get_elem?-map_inv zone_shape g.zones z (zone_shape zone) (
        ap (λ zs. get_elem? zs z) (sym same.zones_same) ∙ get_elem?-map zone_shape h.zones z zone e)

  IsPlaced-after :
      (z : ℕ) (old zone : Zone)
      → zone_shape old ≡ zone_shape zone
      → IsPlaced g z old
      → IsPlaced h z zone
  IsPlaced-after z old zone e placed = record {
    start_le = omega (arith, ap (λ s. s.0) e, ap (λ s. s.1) e, placed.start_le);
    end_le = omega (arith, ap (λ s. s.1) e, placed.end_le, length-pages_same);
    frames = λ i lo hi.
        let (p, at_i, back) =
          placed.frames i (omega (arith, ap (λ s. s.0) e)) (omega (arith, ap (λ s. s.1) e)) in
        let (q, at_i', shape) = page_after i p at_i in (q, at_i', ap (λ s. s.0) shape ∙ back);
  }

  -- A change that keeps the shape keeps the invariant, if the bitmap still tracks the frames.
  pub IsWellFormed-of_SameShape : IsWellFormed g → IsTracked h → IsWellFormed h
  IsWellFormed-of_SameShape wf tracked = record {
    covers = omega (arith, wf.covers, length-pages_same, same.bitmap_same);
    addressable = omega (arith, wf.addressable, same.bitmap_same);
    numbered = λ i p e.
        let (q, at_i, shape) = page_before i p e in
        sym (ap (λ s. s.1) shape) ∙ wf.numbered i q at_i;
    linked = λ i p z e back.
        let (q, at_i, shape) = page_before i p e in
        omega (arith, wf.linked i q z at_i (ap (λ s. s.0) shape ∙ back), length-zones_same);
    placed = λ z zone e.
        let (old, at_z, shape) = zone_before z zone e in
        IsPlaced-after z old zone shape (wf.placed z old at_z);
    tracked = tracked;
  }

-- From `g` to `h` the invariant is kept.
pub record Keeps (g h : Manager) : Type 0 where
  pub shape : SameShape g h
  pub tracks : IsTracked g → IsTracked h

pub Keeps-trans : {g h k : Manager} → Keeps g h → Keeps h k → Keeps g k
Keeps-trans a b = record {
  shape = SameShape-trans a.shape b.shape;
  tracks = λ t. b.tracks (a.tracks t);
}

-- A trace may grow.
pub Keeps-trace : (g : Manager) (trace : List Event) → Keeps g (record g { trace = trace })
Keeps-trace g trace = record {
  shape = record { bitmap_same = refl; pages_same = refl; zones_same = refl };
  tracks = λ t. t;
}

pub Keeps-IsWellFormed : {g h : Manager} → Keeps g h → IsWellFormed g → IsWellFormed h
Keeps-IsWellFormed k wf = IsWellFormed-of_SameShape k.shape wf (k.tracks wf.tracked)
