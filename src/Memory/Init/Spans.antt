-- ===== src/Memory/Init/Spans.antt =====
-- The zones that `init_memory` of kernel/memory.c makes of the firmware's map.
use mathlib.Core.List.{append-nil, append_assoc, map-append}
use knos.Base.{
  ℕ, zero, suc, ◌+◌, ◌-◌, ◌/◌, ◌%◌, ◌^◌, ◌≡◌, ◌≤◌, ◌⊎◌, refl, ap, sym, ◌∙◌, inl, inr, Bool, true,
  false, ◌&&◌, Bool-cases, Option, none, some, some-injective, List, [], ◌∷◌, ◌++◌, map, ok,
  ok-injective, >>=-ok, in_range, arith, length, get_elem?, set, ltb, leb, ◌==◌, if◌then◌else◌,
}
use knos.Memory.{Zone, ZoneType, dma, normal, Manager}
use knos.Memory.E820.{E820Entry, base_of, round_up}
use knos.Memory.E820.Reserved.{start_address, end_address}
use knos.Memory.E820.Reserved.{EndBy}
use knos.Memory.Bitmap.{set_bit}
use knos.Memory.Init.Build.{
  first_pfn, last_pfn, has_pages, is_split, dma_pfn, kind_of, entry_split, entry_single, skip_lem,
}
use knos.Memory.Init.{
  dma_boundary, own_frames, new_zone, add_zone, entry_zones, build_zones, charge_zone, charged,
  kernel_flags, take_kernel_page, take_kernel_pages,
}

-- A zone's type, first page and end.
pub record Span : Type 0 where
  pub kind : ZoneType
  pub first : ℕ
  pub last : ℕ

abbrev pub span_of : Zone → Span
span_of zone = record { kind = zone.zone_type; first = zone.start_pfn; last = zone.end_pfn }

abbrev span : ZoneType → ℕ → ℕ → Span
span kind first last = record { kind = kind; first = first; last = last }

-- The first whole page of 2 MB of an entry, and the page in which it ends.
abbrev pub whole_first : E820Entry → ℕ
whole_first e = (start_address e + (2 ^ 21 - 1)) % 2 ^ 64 / 2 ^ 21

abbrev pub whole_last : E820Entry → ℕ
whole_last e = end_address e / 2 ^ 21

-- The zones of the usable entries, in the order of the map: the whole pages of the entry, below page 8
-- (16 MB) for DMA and from there on normal.
unfoldable pub spans_of : Bool → ℕ → ℕ → List Span
spans_of usable a b =
    if usable && ltb a b
    then (if ltb a 8 && ltb 8 b
        then span dma a 8 ∷ span normal 8 b ∷ []
        else span (if ltb a 8 then dma else normal) a b ∷ [])
    else []

unfoldable pub zones_from : List E820Entry → List Span
zones_from [] = []
zones_from (e ∷ es) = spans_of (e.entry_type == 1) (whole_first e) (whole_last e) ++ zones_from es

spans : Manager → List Span
spans g = map span_of g.zones

add_zone-spans :
    (kind : ZoneType) (a b : ℕ) (g h : Manager)
    → add_zone kind a b g ≡ ok h
    → spans h ≡ spans g ++ (span kind a b ∷ [])
unfolding add_zone spans
add_zone-spans kind a b g h e =
    let (pages, owned, rest) = >>=-ok (own_frames (length g.zones) (b - a) a g.pages) _ e in
    ap (λ k. map span_of k.zones) (sym (ok-injective rest))
    ∙ map-append span_of g.zones (new_zone kind a b ∷ [])

-- The same in the terms of the code.
spans_of_pages :
    (e : E820Entry)
    → spans_of (e.entry_type == 1) (whole_first e) (whole_last e)
      ≡ spans_of (e.entry_type == 1) (first_pfn e) (last_pfn e)
spans_of_pages e =
    ap (λ a. spans_of (e.entry_type == 1) a (whole_last e)) (omega arith)
    ∙ ap (λ b. spans_of (e.entry_type == 1) (first_pfn e) b) (omega arith)

spans_of_split :
    (e : E820Entry)
    → has_pages e ≡ true
    → is_split e ≡ true
    → spans_of (e.entry_type == 1) (first_pfn e) (last_pfn e)
      ≡ span dma (first_pfn e) 8 ∷ span normal 8 (last_pfn e) ∷ []
unfolding spans_of has_pages
spans_of_split e pages cut =
    let usable : ((e.entry_type == 1) && ltb (first_pfn e) (last_pfn e)) ≡ true = ground arith in
    rw (usable, cut) refl

spans_of_single :
    (e : E820Entry)
    → has_pages e ≡ true
    → is_split e ≡ false
    → spans_of (e.entry_type == 1) (first_pfn e) (last_pfn e)
      ≡ span (kind_of e) (first_pfn e) (last_pfn e) ∷ []
unfolding spans_of has_pages
spans_of_single e pages whole =
    let usable : ((e.entry_type == 1) && ltb (first_pfn e) (last_pfn e)) ≡ true = ground arith in
    let low : ltb (first_pfn e) 8 ≡ ltb (round_up (base_of e)) dma_boundary = ground arith in
    rw (usable, whole, low) refl

spans_of_empty :
    (e : E820Entry)
    → has_pages e ≡ false
    → spans_of (e.entry_type == 1) (first_pfn e) (last_pfn e) ≡ []
unfolding spans_of has_pages
spans_of_empty e empty =
    let unusable : ((e.entry_type == 1) && ltb (first_pfn e) (last_pfn e)) ≡ false = ground arith in
    rw unusable refl

entry-spans :
    (top : ℕ) (e : E820Entry) (g h : Manager)
    → last_pfn e ≤ top
    → entry_zones top e g ≡ ok h
    → spans h ≡ spans g ++ spans_of (e.entry_type == 1) (first_pfn e) (last_pfn e)
entry-spans top e g h inside run = elim (Bool-cases (has_pages e)) [
  | inr empty ↦
      let same : g ≡ h = ok-injective (sym (skip_lem top e g empty) ∙ run) in
      rw (spans_of_empty e empty) (ap spans (sym same) ∙ sym (append-nil (spans g)))
  | inl pages ↦ elim (Bool-cases (is_split e)) [
    | inl cut ↦
        let (g1, one, two) =
          >>=-ok (add_zone dma (first_pfn e) dma_pfn g) _
            (sym (entry_split top e g pages cut) ∙ run) in
        rw (spans_of_split e pages cut) (
          add_zone-spans normal dma_pfn (last_pfn e) g1 h two
          ∙ (ap (λ s. s ++ (span normal 8 (last_pfn e) ∷ []))
                (add_zone-spans dma (first_pfn e) dma_pfn g g1 one)
              ∙ append_assoc (spans g) _ _))
    | inr whole ↦ rw (spans_of_single e pages whole) (
        add_zone-spans (kind_of e) (first_pfn e) (last_pfn e) g h
          (sym (entry_single top e g pages whole inside) ∙ run))
  ]
]

build_zones-spans :
    (top : ℕ) (es : List E820Entry) (g h : Manager)
    → EndBy top es
    → build_zones top es g ≡ ok h
    → spans h ≡ spans g ++ zones_from es
unfolding build_zones EndBy zones_from
build_zones-spans top [] g h ends run =
    ap spans (sym (ok-injective run)) ∙ sym (append-nil (spans g))
build_zones-spans top (e ∷ es) g h (end, ends) run =
    let (g1, one, rest) = >>=-ok (entry_zones top e g) _ run in
    build_zones-spans top es g1 h ends rest
    ∙ (ap (λ s. s ++ zones_from es)
          (entry-spans top e g g1 (omega arith) one
            ∙ ap (λ s. spans g ++ s) (sym (spans_of_pages e)))
        ∙ append_assoc (spans g) _ _)

-- Where the loop over the map ends, the zones are those of the map.
pub built-zones :
    (top : ℕ) (es : List E820Entry) (g h : Manager)
    → g.zones ≡ []
    → EndBy top es
    → build_zones top es g ≡ ok h
    → map span_of h.zones ≡ zones_from es
unfolding spans
built-zones top es g h none_yet ends run =
    build_zones-spans top es g h ends run ∙ ap (λ zs. map span_of zs ++ zones_from es) none_yet

charge_zone-spans :
    (pfn : ℕ) (zones : List Zone) (o : Option (List Zone))
    → charge_zone pfn zones ≡ o
    → (o ≡ none) ⊎ ((zs : List Zone) × (o ≡ some zs) × (map span_of zs ≡ map span_of zones))
unfolding charge_zone
charge_zone-spans pfn [] o e = inl (sym e)
charge_zone-spans pfn (zone ∷ zones) o e =
    elim (Bool-cases (leb zone.start_pfn pfn && leb pfn zone.end_pfn)) [
      | inl hit ↦ inr (_, sym (rw (hit, charge_zone) at e), refl)
      | inr miss ↦ elim (charge_zone-spans pfn zones (charge_zone pfn zones) refl) [
        | inl nothing ↦ inl (sym (rw (miss, charge_zone, nothing) at e))
        | inr (zs, found, same) ↦
            inr
              (zone ∷ zs, sym (rw (miss, charge_zone, found) at e), ap (λ s. span_of zone ∷ s) same)
      ]
    ]

charged-spans :
    (g : Manager) (o : Option (List Zone))
    → (o ≡ none) ⊎ ((zs : List Zone) × (o ≡ some zs) × (map span_of zs ≡ map span_of g.zones))
    → map span_of (charged g o).zones ≡ map span_of g.zones
charged-spans g none found = refl
charged-spans g (some zones) (inl e) = absurd (cc e)
charged-spans g (some zones) (inr (zs, e, same)) = ap (map span_of) (some-injective e) ∙ same

-- The kernel's pages change counts, not the zones' places or types.
pub taken-zones :
    (n pfn : ℕ) (g h : Manager)
    → take_kernel_pages n pfn g ≡ ok h
    → map span_of h.zones ≡ map span_of g.zones
unfolding take_kernel_pages take_kernel_page
taken-zones zero pfn g h run = ap (λ k. map span_of k.zones) (sym (ok-injective run))
taken-zones (suc n) pfn g h run =
    let (g1, one, rest) = >>=-ok (take_kernel_page pfn g) _ run in
    let (words, marked_it, behind) = >>=-ok (set_bit g.bitmap pfn) _ one in
    let (p, at_pfn, last) = >>=-ok (in_range (get_elem? g.pages pfn)) _ behind in
    let new = record p { flags = kernel_flags; ref_count = 1 } in
    let g' = record g { bitmap = words; pages = set g.pages pfn new } in
    taken-zones n (pfn + 1) g1 h rest
    ∙ (ap (λ k. map span_of k.zones) (sym (ok-injective last))
        ∙ charged-spans g' (charge_zone pfn g.zones) (charge_zone-spans pfn g.zones _ refl))
