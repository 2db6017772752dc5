-- ===== src/Memory/Alloc/Keeps.antt =====
-- `alloc_pages` keeps the manager well-formed, whatever is asked of it.
use mathlib.Core.Path.{subst}
use native.Mathlib.Decide.{ℕ_discrete}
use knos.Base.{
  ℕ, zero, suc, ◌+◌, ◌≡◌, refl, sym, ◌∙◌, ap, Bool, true, false, Option, none, some, List, ◌∷◌,
  Result, ok, ◌>>=◌, in_range, arith, get_elem?, map-set_same, ◌==◌, if◌then◌else◌, >>=-ok,
  in_range-ok, ok-injective,
}
use knos.Base.Word.{add64}
use knos.Memory.{ZoneType, Manager, not_contiguous}
use knos.Memory.WellFormed.{
  SameShape-trans, zone_shape, IsWellFormed, Keeps, Keeps-trans, Keeps-trace, Keeps-IsWellFormed,
}
use knos.Memory.Bitmap.{set_bit}
use knos.Memory.Bitmap.Laws.{marked, IsWritten, set_bit_inv}
use knos.Memory.Frame.{page_init}
use knos.Memory.Frame.Laws.{IsUpdated, page_init-IsUpdated}
use knos.Memory.Search.{search}
use knos.Memory.Alloc.{find_zone, mark, charge, search_fuel, alloc_in, alloc_pages}

-- One frame is marked and then initialised.
round-Keeps :
    (g : Manager) (pfn : ℕ) (words : List ℕ) {h : Manager}
    → IsWritten g.bitmap pfn 1 words
    → IsUpdated (record g { bitmap = words }) pfn h
    → Keeps g h
round-Keeps g pfn words {h} written updated = record {
  shape =
      SameShape-trans
        (record { bitmap_same = written.same_length; pages_same = refl; zones_same = refl })
        updated.shape;
  tracks = λ tracked q p e clear. elim (ℕ_discrete pfn q) [
    | yes same ↦ absurd (
        omega (
          arith,
          clear,
          ap (λ ws. marked ws q) updated.bitmap_kept,
          ap (marked words) same,
          written.here,
        ))
    | no ne ↦
        tracked q p (sym (updated.others q ne) ∙ e)
          (sym (written.elsewhere q ne) ∙ sym (ap (λ ws. marked ws q) updated.bitmap_kept) ∙ clear)
  ];
}

mark-inv :
    (g : Manager) (found_start flags left i : ℕ) {h : Manager}
    → mark g found_start flags (suc left) i ≡ ok h
    → (k : Manager) × Keeps g k × (mark k found_start flags left (i + 1) ≡ ok h)
unfolding mark
mark-inv g found_start flags left i e =
    let (words, set_eq, e') = >>=-ok (set_bit g.bitmap (add64 found_start i)) _ e in
    let (k, init_eq, e'') =
      >>=-ok (page_init (record g { bitmap = words }) (some (add64 found_start i)) flags) _ e' in
    (
      k,
      round-Keeps g (add64 found_start i) words (set_bit_inv g.bitmap (add64 found_start i) set_eq)
          (page_init-IsUpdated (record g { bitmap = words }) (add64 found_start i) flags init_eq),
      e'',
    )

mark-done :
    (g : Manager) (found_start flags i : ℕ) {h : Manager}
    → mark g found_start flags zero i ≡ ok h
    → g ≡ h
unfolding mark
mark-done g found_start flags i e = ok-injective e

mark-Keeps :
    (left i : ℕ) (g : Manager) (found_start flags : ℕ) {h : Manager}
    → mark g found_start flags left i ≡ ok h
    → Keeps g h
mark-Keeps zero i g found_start flags e =
    subst (Keeps g) (mark-done g found_start flags i e) (Keeps-trace g g.trace)
mark-Keeps (suc left) i g found_start flags e =
    let (k, first, rest) = mark-inv g found_start flags left i e in
    Keeps-trans first (mark-Keeps left (i + 1) k found_start flags rest)

charge-Keeps : (g : Manager) (z nr : ℕ) {h : Manager} → charge g z nr ≡ ok h → Keeps g h
unfolding charge
charge-Keeps g z nr e =
    let (zone, at_z, e') = >>=-ok (in_range (get_elem? g.zones z)) _ e in
    let found = in_range-ok (get_elem? g.zones z) at_z in
    subst (Keeps g) (ok-injective e') (record {
      shape = record {
        bitmap_same = refl;
        pages_same = refl;
        zones_same = map-set_same zone_shape g.zones z zone _ found refl;
      };
      tracks = λ t. t;
    })

-- A call that returns a frame marked the frames and charged the zone; one that returns NULL only
-- left a warning.
alloc_in-Keeps :
    (g : Manager) (t : ZoneType) (nr flags : ℕ) (o r : Option ℕ) {h : Manager}
    → alloc_in g t nr flags o ≡ ok (r, h)
    → Keeps g h
unfolding alloc_in
alloc_in-Keeps g t nr flags none r e =
    subst (Keeps g) (ap (λ s. s.1) (ok-injective e)) (Keeps-trace g _)
alloc_in-Keeps g t nr flags (some z) r {h} e =
    let (zone, at_z, e') = >>=-ok (in_range (get_elem? g.zones z)) _ e in
    let (b, found, e'') =
      >>=-ok (search g.bitmap zone.end_pfn nr (search_fuel g.bitmap) zone.start_pfn) _ e' in
    chosen b (b == 0) e''
  where
    chosen :
        (b : ℕ) (c : Bool)
        → if◌then◌else◌ {A = Result (Option ℕ × Manager)} c
            (ok (none, record g { trace = not_contiguous t nr ∷ g.trace }))
            (mark g b flags nr 0 >>= λ g'. charge g' z nr >>= λ g''. ok (some b, g''))
          ≡ ok (r, h)
        → Keeps g h
    chosen b true e = subst (Keeps g) (ap (λ s. s.1) (ok-injective e)) (Keeps-trace g _)
    chosen b false e =
        let (g', run, e') = >>=-ok (mark g b flags nr 0) _ e in
        let (g'', charged, e'') = >>=-ok (charge g' z nr) _ e' in
        subst (Keeps g) (ap (λ s. s.1) (ok-injective e''))
          (Keeps-trans (mark-Keeps nr 0 g b flags run) (charge-Keeps g' z nr charged))

-- Whatever the zone type, the number of pages and the flags, and whatever the counts of free pages
-- say: if `alloc_pages` returns, a well-formed manager is well-formed again.
pub alloc_pages-IsWellFormed :
    (g : Manager) (t : ZoneType) (nr flags : ℕ) (r : Option ℕ) {h : Manager}
    → IsWellFormed g
    → alloc_pages g t nr flags ≡ ok (r, h)
    → IsWellFormed h
unfolding alloc_pages
alloc_pages-IsWellFormed g t nr flags r wf e =
    Keeps-IsWellFormed (alloc_in-Keeps g t nr flags (find_zone g.zones t nr 0) r e) wf
