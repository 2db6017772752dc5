-- ===== src/Memory/Init/Zones.antt =====
-- What the manager is while `init_memory` of kernel/memory.c builds the zones.
use native.Mathlib.Decide.{dec_lt}
use knos.Base.{
  ℕ, ◌+◌, ◌-◌, ◌≤◌, ◌<◌, ◌≡◌, refl, sym, ◌∙◌, ◌⊎◌, inl, inr, some, List, [], ◌∷◌, ◌++◌, ok, arith,
  length, length-append, get_elem?, get_elem?-snoc_inv, some-injective,
}
use mathlib.Core.Path.{subst}
use knos.Memory.{Page, Zone, ZoneType, Manager}
use knos.Memory.WellFormed.{Unused, IsPlaced}
use knos.Memory.Init.{fresh_page, new_zone, add_zone}
use knos.Memory.Init.Frames.{IsOwned, own_frames_lem}

-- Frame `i` has its number, no use, and none but one of the first `k` zones.
pub record IsFresh (k i : ℕ) (p : Page) : Type 0 where
  pub number : p.pfn ≡ i
  pub link : (z : ℕ) → p.zone ≡ some z → z < k
  pub unused : Unused p

-- A zone that no page has been taken from.
pub record IsWhole (n : ℕ) (zone : Zone) : Type 0 where
  pub some_pages : zone.start_pfn < zone.end_pfn
  pub ends : zone.end_pfn ≤ n
  pub all_free : zone.nr_free ≡ zone.end_pfn - zone.start_pfn

-- The zones so far end by `n`; the frames go up to `top`; the first zone goes from `s` to `t`, and the
-- others start at or behind `t`.
pub record IsBuilding (s t n top : ℕ) (g : Manager) : Type 0 where
  pub size : length g.pages ≡ top + 1
  pub frames : (i : ℕ) (p : Page) → get_elem? g.pages i ≡ some p → IsFresh (length g.zones) i p
  pub placed : (z : ℕ) (zone : Zone) → get_elem? g.zones z ≡ some zone → IsPlaced g z zone
  pub whole : (z : ℕ) (zone : Zone) → get_elem? g.zones z ≡ some zone → IsWhole n zone
  pub order :
      (z : ℕ) (zone : Zone)
      → get_elem? g.zones z ≡ some zone
      → ((z ≡ 0) × (zone.start_pfn ≡ s) × (zone.end_pfn ≡ t)) ⊎ ((0 < z) × (t ≤ zone.start_pfn))

-- The manager with one more zone.
abbrev with_zone : Manager → List Page → Zone → Manager
with_zone g pages zone = record g { pages = pages; zones = g.zones ++ (zone ∷ []) }

module _ {s t n top : ℕ} {g : Manager} (zone_type : ZoneType) (lo hi : ℕ)
    (b : IsBuilding s t n top g) (after : n ≤ lo) (nonempty : lo < hi) (inside : hi ≤ top + 1)
    (place : ((length g.zones ≡ 0) × (lo ≡ s) × (hi ≡ t)) ⊎ ((0 < length g.zones) × (t ≤ lo)))
    (pages : List Page) (owned : IsOwned (length g.zones) (hi - lo) lo g.pages pages) where
  abbrev zone : Zone
  zone = new_zone zone_type lo hi

  abbrev g' : Manager
  g' = with_zone g pages zone

  more : length g'.zones ≡ length g.zones + 1
  more = length-append g.zones (zone ∷ [])

  -- A frame of the result is new, or was there before.
  frame_split :
      (i : ℕ) (p : Page)
      → get_elem? pages i ≡ some p
      → (fresh_page (length g.zones) i ≡ p) ⊎ (get_elem? g.pages i ≡ some p)
  frame_split i p e = elim (dec_lt i lo) [
    | yes lt ↦ inr (sym (owned.outside i (inl lt)) ∙ e)
    | no ge ↦ elim (dec_lt i hi) [
      | yes lt ↦ inl (some-injective (sym (owned.inside i (omega arith) (omega arith)) ∙ e))
      | no above ↦ inr (sym (owned.outside i (inr (omega arith))) ∙ e)
    ]
  ]

  fresh_page-IsFresh : (i : ℕ) → IsFresh (length g'.zones) i (fresh_page (length g.zones) i)
  fresh_page-IsFresh i = record {
    number = refl;
    link = λ z e. let same : length g.zones ≡ z = cc e in omega (arith, more);
    unused = refl;
  }

  old-IsFresh : (i : ℕ) (p : Page) → IsFresh (length g.zones) i p → IsFresh (length g'.zones) i p
  old-IsFresh i p f = record {
    number = f.number;
    link = λ z e. omega (arith, more, f.link z e);
    unused = f.unused;
  }

  old-IsPlaced :
      (z : ℕ) (old : Zone) → get_elem? g.zones z ≡ some old → IsPlaced g z old → IsPlaced g' z old
  old-IsPlaced z old at_z p = record {
    start_le = p.start_le;
    end_le = omega (arith, p.end_le, owned.same_length);
    frames = λ i le lt.
        let (q, at_i, back) = p.frames i le lt in
        (q, owned.outside i (inl (omega (arith, (b.whole z old at_z).ends))) ∙ at_i, back);
  }

  new-IsPlaced : IsPlaced g' (length g.zones) zone
  new-IsPlaced = record {
    start_le = omega arith;
    end_le = omega (arith, owned.same_length, b.size);
    frames = λ i le lt. (fresh_page (length g.zones) i, owned.inside i le (omega arith), refl);
  }

  with_zone-IsBuilding : IsBuilding s t hi top g'
  with_zone-IsBuilding = record {
    size = owned.same_length ∙ b.size;
    frames = λ i p e. elim (frame_split i p e) [
      | inl new ↦ subst (IsFresh (length g'.zones) i) new (fresh_page-IsFresh i)
      | inr old ↦ old-IsFresh i p (b.frames i p old)
    ];
    placed = λ z y e. elim (get_elem?-snoc_inv g.zones zone z e) [
      | inl old ↦ old-IsPlaced z y old (b.placed z y old)
      | inr (last, same) ↦
          subst (IsPlaced g' z) same (subst (λ k. IsPlaced g' k zone) (sym last) new-IsPlaced)
    ];
    whole = λ z y e. elim (get_elem?-snoc_inv g.zones zone z e) [
      | inl old ↦
          let w = b.whole z y old in
          record { some_pages = w.some_pages; ends = omega (arith, w.ends); all_free = w.all_free }
      | inr (last, same) ↦
          subst (IsWhole hi) same
            (record { some_pages = nonempty; ends = omega arith; all_free = refl })
    ];
    order = λ z y e. elim (get_elem?-snoc_inv g.zones zone z e) [
      | inl old ↦ b.order z y old
      | inr (last, same) ↦
          subst
            (λ y. ((z ≡ 0) × (y.start_pfn ≡ s) × (y.end_pfn ≡ t)) ⊎ ((0 < z) × (t ≤ y.start_pfn)))
            same
            (subst (λ k. ((k ≡ 0) × (lo ≡ s) × (hi ≡ t)) ⊎ ((0 < k) × (t ≤ lo))) (sym last) place)
    ];
  }

-- `add_zone` behind the zones so far.
pub add_zone_lem :
    {s t n top : ℕ} {g : Manager} (zone_type : ZoneType) (lo hi : ℕ)
    → IsBuilding s t n top g
    → n ≤ lo
    → lo < hi
    → hi ≤ top + 1
    → ((length g.zones ≡ 0) × (lo ≡ s) × (hi ≡ t)) ⊎ ((0 < length g.zones) × (t ≤ lo))
    → (g' : Manager) × (add_zone zone_type lo hi g ≡ ok g')
      × IsBuilding s t hi top g'
      × (g'.bitmap ≡ g.bitmap)
      × (g'.free_2m_pages ≡ g.free_2m_pages)
      × (length g'.zones ≡ length g.zones + 1)
unfolding add_zone
add_zone_lem {g = g} zone_type lo hi b after nonempty inside place =
    let (pages, e, owned) =
      own_frames_lem (length g.zones) (hi - lo) lo g.pages (omega (arith, b.size)) in
    (
      with_zone g pages (new_zone zone_type lo hi),
      rw e refl,
      with_zone-IsBuilding zone_type lo hi b after nonempty inside place pages owned,
      refl,
      refl,
      more zone_type lo hi b after nonempty inside place pages owned,
    )
