-- ===== src/Memory/Alloc/Choice.antt =====
-- The zone that `alloc_pages` chooses.
use knos.Base.{
  ℕ, zero, suc, ◌+◌, ◌≤◌, ◌<◌, ◌≡◌, ◌⊎◌, ◌↔◌, inl, inr, refl, ◌∙◌, ap, true, ◌&&◌, none, some, List,
  [], ◌∷◌, arith, get_elem?, leb, Bool-cases,
}
use knos.Memory.{Zone, ZoneType, dma, dma32, normal}
use knos.Memory.Alloc.{same_type, find_zone}

-- The zone is of the type asked for and claims enough free pages.
abbrev pub Offers : Zone → ZoneType → ℕ → Type 0
Offers zone zone_type nr_pages = (zone.zone_type ≡ zone_type) × (nr_pages ≤ zone.nr_free)

abbrev pub NoOffer : List Zone → ZoneType → ℕ → ℕ → Type 0
NoOffer zones zone_type nr_pages k =
    (j : ℕ) (zone : Zone) → j < k → get_elem? zones j ≡ some zone → ¬ Offers zone zone_type nr_pages

same_type_iff : (a b : ZoneType) → (same_type a b ≡ true) ↔ (a ≡ b)
unfolding same_type
same_type_iff dma dma = ground arith
same_type_iff dma dma32 = ground arith
same_type_iff dma normal = ground arith
same_type_iff dma32 dma = ground arith
same_type_iff dma32 dma32 = ground arith
same_type_iff dma32 normal = ground arith
same_type_iff normal dma = ground arith
same_type_iff normal dma32 = ground arith
same_type_iff normal normal = ground arith

Offers-iff :
    (zone : Zone) (t : ZoneType) (nr : ℕ)
    → ((same_type zone.zone_type t && leb nr zone.nr_free) ≡ true) ↔ Offers zone t nr
Offers-iff zone t nr = ground (arith, same_type_iff zone.zone_type t)

NoOffer-suc :
    (zone : Zone) (zones : List Zone) (t : ZoneType) (nr k : ℕ)
    → ¬ Offers zone t nr
    → NoOffer zones t nr k
    → NoOffer (zone ∷ zones) t nr (suc k)
NoOffer-suc zone zones t nr k head rest zero other lt e = λ o. head (subst_offer o)
  where
    subst_offer : Offers other t nr → Offers zone t nr
    subst_offer o = let same : zone ≡ other = cc e in rw same o
NoOffer-suc zone zones t nr k head rest (suc j) other lt e = rest j other (omega arith) e

-- The first zone that offers the pages is chosen, and none if there is no such zone.
pub find_zone_lem :
    (zones : List Zone) (t : ZoneType) (nr i : ℕ)
    → ((find_zone zones t nr i ≡ none) × ((k : ℕ) → NoOffer zones t nr k))
      ⊎ ((k : ℕ) × (zone : Zone) × (find_zone zones t nr i ≡ some (i + k))
          × (get_elem? zones k ≡ some zone)
          × Offers zone t nr
          × NoOffer zones t nr k)
unfolding find_zone
find_zone_lem [] t nr i = inl (refl, λ k j zone lt e. cc)
find_zone_lem (zone ∷ zones) t nr i =
    elim (Bool-cases (same_type zone.zone_type t && leb nr zone.nr_free)) [
      | inl good ↦ inr (
        0,
        zone,
        rw good (ap some (omega arith)),
        refl,
        (Offers-iff zone t nr).0 good,
        λ j other lt e. absurd (omega arith),
      )
      | inr bad ↦
          let refused : ¬ Offers zone t nr = λ o. cc ((Offers-iff zone t nr).1 o) in
          elim (find_zone_lem zones t nr (i + 1)) [
            | inl (e, rest) ↦ inl (
              rw bad e,
              λ k j other lt at_j.
                  NoOffer-suc zone zones t nr j refused (rest j) j other (omega arith) at_j,
            )
            | inr (k, chosen, e, at_k, good, rest) ↦ inr (
              suc k,
              chosen,
              rw bad (e ∙ ap some (omega arith)),
              at_k,
              good,
              NoOffer-suc zone zones t nr k refused rest,
            )
          ]
    ]
