-- ===== src/Memory/Free/Keeps.antt =====
-- `free_pages` keeps the manager well-formed, whatever it is given.
use mathlib.Core.Path.{subst}
use native.Mathlib.Decide.{ℕ_discrete}
use knos.Base.{
  ℕ, zero, suc, ◌+◌, ◌-◌, ◌≡◌, refl, sym, ◌∙◌, ap, Bool, true, false, bit_and, Option, none, some,
  List, ◌∷◌, ok, ◌>>=◌, in_range, length, get_elem?, set, map-set_same, get_elem?-set_self,
  get_elem?-set_ne, lt_of_get_elem?, ◌==◌, ltb, leb, if◌then◌else◌, >>=-ok, in_range-ok,
  ok-injective,
}
use knos.Base.Word.{add64}
use knos.Memory.{
  Page, Zone, Event, Manager, page_used, invalid_parameters, invalid_frame, unused_page,
  tlb_flushed,
}
use knos.Memory.WellFormed.{
  page_shape, zone_shape, IsWellFormed, Keeps, Keeps-trace, Keeps-IsWellFormed,
}
use knos.Memory.Bitmap.{clear_bit}
use knos.Memory.Bitmap.Laws.{marked, IsWritten, clear_bit_inv}
use knos.Memory.Free.{release, free_frame, free_loop, free_from, free_pages}

module _ (g : Manager) (j : ℕ) (p : Page) (at_j : get_elem? g.pages j ≡ some p) where
  -- A reference less.
  lowered-Keeps :
      (n : ℕ) → Keeps g (record g { pages = set g.pages j (record p { ref_count = n }) })
  lowered-Keeps n = record {
    shape = record {
      bitmap_same = refl;
      pages_same = map-set_same page_shape g.pages j p _ at_j refl;
      zones_same = refl;
    };
    tracks = λ tracked q r e clear. elim (ℕ_discrete j q) [
      | yes same ↦
          let lowered : record p { ref_count = n } ≡ r = cc (
            ap (get_elem? (set g.pages j (record p { ref_count = n }))) same,
            get_elem?-set_self g.pages j (record p { ref_count = n })
                (lt_of_get_elem? g.pages j p at_j),
          ) in
          ap (λ x. bit_and x.flags page_used) (sym lowered)
          ∙ tracked j p at_j (ap (marked g.bitmap) same ∙ clear)
      | no ne ↦ tracked q r (sym (get_elem?-set_ne g.pages j q _ ne) ∙ e) clear
    ];
  }

  -- The frame goes back: it loses its flags, and its own bit.
  released-Keeps :
      (n z free : ℕ) (words : List ℕ) (zone : Zone)
      → p.pfn ≡ j
      → IsWritten g.bitmap p.pfn 0 words
      → get_elem? g.zones z ≡ some zone
      → Keeps g (record g {
        bitmap = words;
        pages = set g.pages j (record p { ref_count = n; flags = 0 });
        zones = set g.zones z (record zone { nr_free = add64 zone.nr_free 1 });
        free_2m_pages = free;
      })
  released-Keeps n z free words zone own written at_z = record {
    shape = record {
      bitmap_same = written.same_length;
      pages_same = map-set_same page_shape g.pages j p _ at_j refl;
      zones_same = map-set_same zone_shape g.zones z zone _ at_z refl;
    };
    tracks = λ tracked q r e clear. elim (ℕ_discrete j q) [
      | yes same ↦
          let gone : record p { ref_count = n; flags = 0 } ≡ r = cc (
            ap (get_elem? (set g.pages j (record p { ref_count = n; flags = 0 }))) same,
            get_elem?-set_self g.pages j (record p { ref_count = n; flags = 0 })
                (lt_of_get_elem? g.pages j p at_j),
          ) in
          ap (λ x. bit_and x.flags page_used) (sym gone)
      | no ne ↦
          tracked q r (sym (get_elem?-set_ne g.pages j q _ ne) ∙ e)
            (sym (written.elsewhere q (λ s. ne (sym own ∙ s))) ∙ clear)
    ];
  }

  release-Keeps :
      (n z : ℕ) {h : Manager}
      → p.pfn ≡ j
      → release g z j (record p { ref_count = n }) ≡ ok h
      → Keeps g h
  unfolding release
  release-Keeps n z own e =
      let (words, cleared, e') = >>=-ok (clear_bit g.bitmap p.pfn) _ e in
      let (zone, at_z, e'') = >>=-ok (in_range (get_elem? g.zones z)) _ e' in
      subst (Keeps g) (ok-injective e'') (
        released-Keeps n z _ words zone own (clear_bit_inv g.bitmap p.pfn cleared)
          (in_range-ok (get_elem? g.zones z) at_z))

  free_frame-Keeps : (z : ℕ) {h : Manager} → p.pfn ≡ j → free_frame g z j p ≡ ok h → Keeps g h
  unfolding free_frame
  free_frame-Keeps z {h} own e = split (bit_and p.flags page_used == 0) (ltb 1 p.ref_count) e
    where
      split :
          (unused shared : Bool)
          → (if unused
              then ok (record g { trace = unused_page p.pfn ∷ g.trace })
              else if shared
              then ok
                  (record g { pages = set g.pages j (record p { ref_count = p.ref_count - 1 }) })
              else release g z j (record p { ref_count = p.ref_count - 1 }))
            ≡ ok h
          → Keeps g h
      split true shared e = subst (Keeps g) (ok-injective e) (Keeps-trace g _)
      split false true e = subst (Keeps g) (ok-injective e) (lowered-Keeps (p.ref_count - 1))
      split false false e = release-Keeps (p.ref_count - 1) z own e

free_loop-inv :
    (g : Manager) (z start_pfn left i : ℕ) {h : Manager}
    → free_loop g z start_pfn (suc left) i ≡ ok h
    → (p : Page) × (k : Manager) × (get_elem? g.pages (add64 start_pfn i) ≡ some p)
      × (free_frame g z (add64 start_pfn i) p ≡ ok k)
      × (free_loop k z start_pfn left (i + 1) ≡ ok h)
unfolding free_loop
free_loop-inv g z start_pfn left i e =
    let (p, at_i, e') = >>=-ok (in_range (get_elem? g.pages (add64 start_pfn i))) _ e in
    let (k, freed, e'') = >>=-ok (free_frame g z (add64 start_pfn i) p) _ e' in
    (p, k, in_range-ok (get_elem? g.pages (add64 start_pfn i)) at_i, freed, e'')

free_loop-done :
    (g : Manager) (z start_pfn i : ℕ) {h : Manager} → free_loop g z start_pfn zero i ≡ ok h → g ≡ h
unfolding free_loop
free_loop-done g z start_pfn i e = ok-injective e

free_loop-IsWellFormed :
    (left i : ℕ) (g : Manager) (z start_pfn : ℕ) {h : Manager}
    → IsWellFormed g
    → free_loop g z start_pfn left i ≡ ok h
    → IsWellFormed h
free_loop-IsWellFormed zero i g z start_pfn wf e =
    subst IsWellFormed (free_loop-done g z start_pfn i e) wf
free_loop-IsWellFormed (suc left) i g z start_pfn wf e =
    let (p, k, at_i, freed, rest) = free_loop-inv g z start_pfn left i e in
    let step = free_frame-Keeps g (add64 start_pfn i) p at_i z (wf.numbered _ p at_i) freed in
    free_loop-IsWellFormed left (i + 1) k z start_pfn (Keeps-IsWellFormed step wf) rest

trace-IsWellFormed :
    (g : Manager) (trace : List Event) {h : Manager}
    → IsWellFormed g
    → ok (record g { trace = trace }) ≡ ok h
    → IsWellFormed h
trace-IsWellFormed g trace wf e =
    subst IsWellFormed (ok-injective e) (Keeps-IsWellFormed (Keeps-trace g trace) wf)

free_from-IsWellFormed :
    (g : Manager) (p : Page) (o : Option ℕ) (nr : ℕ) {h : Manager}
    → IsWellFormed g
    → free_from g p o nr ≡ ok h
    → IsWellFormed h
unfolding free_from
free_from-IsWellFormed g p none nr wf e = trace-IsWellFormed g _ wf e
free_from-IsWellFormed g p (some z) nr {h} wf e = split (leb (length g.pages) p.pfn) e
  where
    split :
        (outside : Bool)
        → (if outside
            then ok (record g { trace = invalid_frame p.pfn ∷ g.trace })
            else (free_loop g z p.pfn nr 0 >>= λ g'.
                ok (record g' { trace = tlb_flushed ∷ g'.trace })))
          ≡ ok h
        → IsWellFormed h
    split true e = trace-IsWellFormed g _ wf e
    split false e =
        let (g', run, e') = >>=-ok (free_loop g z p.pfn nr 0) _ e in
        trace-IsWellFormed g' _ (free_loop-IsWellFormed nr 0 g z p.pfn wf run) e'

-- Whatever frame and number of pages it is given, frames that are not in use, shared or of another
-- zone included: if `free_pages` returns, a well-formed manager is well-formed again.
pub free_pages-IsWellFormed :
    (g : Manager) (page : Option ℕ) (nr : ℕ) {h : Manager}
    → IsWellFormed g
    → free_pages g page nr ≡ ok h
    → IsWellFormed h
unfolding free_pages
free_pages-IsWellFormed g none nr wf e = trace-IsWellFormed g _ wf e
free_pages-IsWellFormed g (some page) nr {h} wf e = split (nr == 0) e
  where
    split :
        (nothing : Bool)
        → (if nothing
            then ok (record g { trace = invalid_parameters nr ∷ g.trace })
            else (in_range (get_elem? g.pages page) >>= λ p. free_from g p p.zone nr))
          ≡ ok h
        → IsWellFormed h
    split true e = trace-IsWellFormed g _ wf e
    split false e =
        let (p, at_page, e') = >>=-ok (in_range (get_elem? g.pages page)) _ e in
        free_from-IsWellFormed g p p.zone nr wf e'
