-- ===== src/Memory/Init/Settle.antt =====
-- The end of `init_memory` of kernel/memory.c: page 0, the test of the bitmap, and the kernel's pages.
use mathlib.Core.Path.{subst}
use native.Mathlib.Decide.{ℕ_discrete}
use knos.Base.{
  ℕ, zero, suc, ◌*◌, ◌^◌, ◌≤◌, ◌<◌, ◌≡◌, ◌≢◌, refl, ap, sym, ◌∙◌, inl, inr, some, some-injective,
  List, [], ◌∷◌, arith, length, get_elem?, set, length-set, get_elem?-set_self, get_elem?-set_ne,
}
use knos.Memory.{Zone, Manager}
use knos.Memory.WellFormed.{IsPlaced, IsWellFormed}
use knos.Memory.Init.{fresh_page}
use knos.Memory.Init.Zones.{IsFresh, IsBuilding}
use knos.Memory.Init.Kernel.{HasRoom, HaveRoom}

module _ {s t n top : ℕ} {g : Manager} (b : IsBuilding s t n top g) (ordered : s < t) where
  -- The first zone starts at `s`; only it can hold page 0.
  pub first_start : (zone : Zone) → get_elem? g.zones 0 ≡ some zone → zone.start_pfn ≡ s
  first_start zone at_0 = elim (b.order 0 zone at_0) [
    | inl first ↦ first.1
    | inr other ↦ absurd (omega (arith, other.0))
  ]

  holds_0 : (z : ℕ) (zone : Zone) → get_elem? g.zones z ≡ some zone → zone.start_pfn ≤ 0 → z ≡ 0
  holds_0 z zone at_z start = elim (b.order z zone at_z) [
    | inl first ↦ first.0
    | inr other ↦ absurd (omega (arith, other.1))
  ]

  module _ (some_zone : 0 < length g.zones) (words : List ℕ) where
    abbrev pub claimed : Manager
    claimed = record g { bitmap = words; pages = set g.pages 0 (fresh_page 0 0) }

    at_page_0 : get_elem? claimed.pages 0 ≡ some (fresh_page 0 0)
    at_page_0 = get_elem?-set_self g.pages 0 (fresh_page 0 0) (omega (arith, b.size))

    elsewhere : (i : ℕ) → 0 ≢ i → get_elem? claimed.pages i ≡ get_elem? g.pages i
    elsewhere i ne = get_elem?-set_ne g.pages 0 i (fresh_page 0 0) ne

    page_0-IsFresh : IsFresh (length g.zones) 0 (fresh_page 0 0)
    page_0-IsFresh = record {
      number = refl;
      link = λ z e. let same : 0 ≡ z = cc e in omega arith;
      unused = refl;
    }

    claimed-IsPlaced :
        (z : ℕ) (zone : Zone)
        → get_elem? g.zones z ≡ some zone
        → IsPlaced g z zone
        → IsPlaced claimed z zone
    claimed-IsPlaced z zone at_z p = record {
      start_le = p.start_le;
      end_le = omega (arith, p.end_le, length-set g.pages 0 (fresh_page 0 0));
      frames = λ i le lt. elim (ℕ_discrete 0 i) [
        | yes same ↦
            let first : z ≡ 0 = holds_0 z zone at_z (omega arith) in
            (
              fresh_page 0 0,
              ap (get_elem? claimed.pages) (sym same) ∙ at_page_0,
              ap some (sym first),
            )
        | no ne ↦ let (q, at_i, back) = p.frames i le lt in (q, elsewhere i ne ∙ at_i, back)
      ];
    }

    pub claimed-IsBuilding : IsBuilding s t n top claimed
    claimed-IsBuilding = record {
      size = length-set g.pages 0 (fresh_page 0 0) ∙ b.size;
      frames = λ i p e. elim (ℕ_discrete 0 i) [
        | yes same ↦
            let page : fresh_page 0 0 ≡ p =
              some-injective (sym at_page_0 ∙ (ap (get_elem? claimed.pages) same ∙ e)) in
            subst (λ k. IsFresh (length g.zones) k p) same
              (subst (IsFresh (length g.zones) 0) page page_0-IsFresh)
        | no ne ↦ b.frames i p (sym (elsewhere i ne) ∙ e)
      ];
      placed = λ z zone e. claimed-IsPlaced z zone e (b.placed z zone e);
      whole = b.whole;
      order = b.order;
    }

-- A manager with whole zones is well-formed, whatever its bitmap holds.
pub IsBuilding-IsWellFormed :
    {s t n top : ℕ} {g : Manager}
    → IsBuilding s t n top g
    → length g.pages ≤ 64 * length g.bitmap
    → 64 * length g.bitmap < 2 ^ 64
    → IsWellFormed g
IsBuilding-IsWellFormed b covers addressable = record {
  covers = covers;
  addressable = addressable;
  numbered = λ i p e. (b.frames i p e).number;
  linked = λ i p z e back. (b.frames i p e).link z back;
  placed = b.placed;
  tracked = λ i p e free. (b.frames i p e).unused;
}

HaveRoom-of :
    (last pfn : ℕ) (zones : List Zone)
    → ((z : ℕ) (zone : Zone) → get_elem? zones z ≡ some zone → HasRoom last pfn zone)
    → HaveRoom last pfn zones
unfolding HaveRoom
HaveRoom-of last pfn [] h = omega arith
HaveRoom-of last pfn (zone ∷ zones) h =
    (h 0 zone refl, HaveRoom-of last pfn zones (λ z y e. h (suc z) y e))

pub HaveRoom-at :
    (last pfn : ℕ) (zones : List Zone) (z : ℕ) (zone : Zone)
    → HaveRoom last pfn zones
    → get_elem? zones z ≡ some zone
    → HasRoom last pfn zone
unfolding HaveRoom
HaveRoom-at last pfn [] z zone h e = cc
HaveRoom-at last pfn (y ∷ zones) zero zone (h, hs) e = subst (HasRoom last pfn) (some-injective e) h
HaveRoom-at last pfn (y ∷ zones) (suc z) zone (h, hs) e = HaveRoom-at last pfn zones z zone hs e

-- Whole zones have room for pages that end with the first zone.
pub IsBuilding-HaveRoom :
    {s t n top : ℕ} {g : Manager} (last pfn : ℕ)
    → IsBuilding s t n top g
    → length g.pages < 2 ^ 64
    → last ≤ t
    → HaveRoom last pfn g.zones
IsBuilding-HaveRoom {t = t} {g = g} last pfn b few within =
    HaveRoom-of last pfn g.zones (λ z zone e.
      let w = b.whole z zone e in
      let reach : t ≤ zone.end_pfn = elim (b.order z zone e) [
        | inl first ↦ omega (arith, first.2)
        | inr other ↦ omega (arith, other.1, w.some_pages)
      ] in
      record {
        fair = omega (arith, w.some_pages, w.all_free);
        small = omega (arith, (b.placed z zone e).end_le);
        left = omega (arith, w.some_pages, w.all_free, reach);
      })
