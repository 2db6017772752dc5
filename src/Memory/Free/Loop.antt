-- ===== src/Memory/Free/Loop.antt =====
-- The loop of `free_pages` over frames of one zone that are in use and not shared.
use native.Mathlib.Decide.{ℕ_discrete}
use knos.Base.{
  ℕ, zero, suc, ◌+◌, ◌-◌, ◌*◌, ◌^◌, ◌≤◌, ◌<◌, ◌≡◌, ◌≢◌, ◌⊎◌, inl, refl, sym, ◌∙◌, ap, false,
  bit_and, some, List, ok, arith, length, get_elem?, set, get_elem?-set_self, get_elem?-set_ne,
  map-set_same, lt_of_get_elem?, ◌==◌, ltb,
}
use knos.Base.Word.{add64}
use knos.Memory.{Page, Zone, Manager, page_used}
use knos.Memory.WellFormed.{SameShape, SameShape-refl, SameShape-trans, page_shape, zone_shape}
use knos.Memory.Bitmap.{clear_bit}
use knos.Memory.Bitmap.Laws.{marked, IsWritten, clear_bit_lem}
use knos.Memory.Free.{free_frame, free_loop}

-- The frame's last reference, or a frame with no reference at all that is still in use.
abbrev pub IsOwned : Page → Type 0
IsOwned p = ((bit_and p.flags page_used == 0) ≡ false) × (p.ref_count ≤ 1)

-- A frame after its last reference is gone.
abbrev pub freed : Page → Page
freed p = record p { ref_count = p.ref_count - 1; flags = 0 }

abbrev plus_one : Zone → Zone
plus_one zone = record zone { nr_free = add64 zone.nr_free 1 }

abbrev pub AreOwned : Manager → ℕ → ℕ → Type 0
AreOwned g lo n =
    (i : ℕ)
    → lo ≤ i
    → i < lo + n
    → (p : Page) × (get_elem? g.pages i ≡ some p) × (p.pfn ≡ i) × IsOwned p

-- `h` is `g` with the `n` frames from `lo` on given back, and with `n` free pages more in zone `z`
-- (which was `zone`) and in the manager. Nothing else differs.
pub record IsReleased (g : Manager) (z : ℕ) (zone : Zone) (lo n : ℕ) (h : Manager) : Type 0 where
  pub shape : SameShape g h
  pub bits_in : (q : ℕ) → lo ≤ q → q < lo + n → marked h.bitmap q ≡ 0
  pub bits_out : (q : ℕ) → (q < lo) ⊎ (lo + n ≤ q) → marked h.bitmap q ≡ marked g.bitmap q
  pub frames_in :
      (q : ℕ) (p : Page)
      → lo ≤ q
      → q < lo + n
      → get_elem? g.pages q ≡ some p
      → get_elem? h.pages q ≡ some (freed p)
  pub frames_out : (q : ℕ) → (q < lo) ⊎ (lo + n ≤ q) → get_elem? h.pages q ≡ get_elem? g.pages q
  pub zone_refunded : get_elem? h.zones z ≡ some (record zone { nr_free = add64 zone.nr_free n })
  pub zones_kept : (y : ℕ) → z ≢ y → get_elem? h.zones y ≡ get_elem? g.zones y
  pub free_refunded : h.free_2m_pages ≡ add64 g.free_2m_pages n
  pub trace_kept : h.trace ≡ g.trace

module _ (g : Manager) (z : ℕ) (zone : Zone) (lo : ℕ) (p : Page) (words : List ℕ)
    (at_z : get_elem? g.zones z ≡ some zone) (at_lo : get_elem? g.pages lo ≡ some p)
    (written : IsWritten g.bitmap lo 0 words) where
  abbrev freed_one : Manager
  freed_one = record g {
    bitmap = words;
    pages = set g.pages lo (freed p);
    zones = set g.zones z (plus_one zone);
    free_2m_pages = add64 g.free_2m_pages 1;
  }

  freed_one-SameShape : SameShape g freed_one
  freed_one-SameShape = record {
    bitmap_same = written.same_length;
    pages_same = map-set_same page_shape g.pages lo p (freed p) at_lo refl;
    zones_same = map-set_same zone_shape g.zones z zone (plus_one zone) at_z refl;
  }

  freed_first :
      (q : ℕ) (p' : Page)
      → lo ≡ q
      → get_elem? g.pages q ≡ some p'
      → get_elem? (set g.pages lo (freed p)) q ≡ some (freed p')
  freed_first q p' e at_q =
      let same : p ≡ p' = cc (at_lo, ap (get_elem? g.pages) e) in
      ap (get_elem? (set g.pages lo (freed p))) (sym e)
      ∙ get_elem?-set_self g.pages lo (freed p) (lt_of_get_elem? g.pages lo p at_lo)
      ∙ ap (λ r. some (freed r)) same

  -- One frame, and then the `n` behind it.
  IsReleased-suc :
      (n : ℕ) {h : Manager}
      → IsReleased freed_one z (plus_one zone) (lo + 1) n h
      → IsReleased g z zone lo (suc n) h
  IsReleased-suc n {h} rest = record {
    shape = SameShape-trans freed_one-SameShape rest.shape;
    bits_in = λ q le lt. elim (ℕ_discrete lo q) [
      | yes e ↦ rest.bits_out q (inl (omega arith)) ∙ ap (marked words) (sym e) ∙ written.here
      | no d ↦ rest.bits_in q (omega arith) (omega arith)
    ];
    bits_out = λ q out. rest.bits_out q (omega arith) ∙ written.elsewhere q (omega arith);
    frames_in = λ q p' le lt at_q. elim (ℕ_discrete lo q) [
      | yes e ↦ rest.frames_out q (inl (omega arith)) ∙ freed_first q p' e at_q
      | no d ↦
          rest.frames_in q p' (omega arith) (omega arith)
            (get_elem?-set_ne g.pages lo q (freed p) d ∙ at_q)
    ];
    frames_out = λ q out.
        rest.frames_out q (omega arith) ∙ get_elem?-set_ne g.pages lo q (freed p) (omega arith);
    zone_refunded = rest.zone_refunded ∙ ap (λ n. some (record zone { nr_free = n })) (omega arith);
    zones_kept = λ y ne. rest.zones_kept y ne ∙ get_elem?-set_ne g.zones z y (plus_one zone) ne;
    free_refunded = rest.free_refunded ∙ omega arith;
    trace_kept = rest.trace_kept;
  }

  free_frame_owned :
      p.pfn ≡ lo → clear_bit g.bitmap lo ≡ ok words → IsOwned p → free_frame g z lo p ≡ ok freed_one
  unfolding free_frame
  free_frame_owned own cleared owned =
      let last : ltb 1 p.ref_count ≡ false = ground arith in
      rw (owned.0, last, own, cleared, at_z) refl

IsReleased-zero :
    (g : Manager) (z : ℕ) (zone : Zone) (lo : ℕ)
    → get_elem? g.zones z ≡ some zone
    → zone.nr_free < 2 ^ 64
    → g.free_2m_pages < 2 ^ 64
    → IsReleased g z zone lo 0 g
IsReleased-zero g z zone lo at_z a b = record {
  shape = SameShape-refl g;
  bits_in = λ q le lt. absurd (omega arith);
  bits_out = λ q out. refl;
  frames_in = λ q p le lt. absurd (omega arith);
  frames_out = λ q out. refl;
  zone_refunded = at_z ∙ ap (λ n. some (record zone { nr_free = n })) (omega arith);
  zones_kept = λ y ne. refl;
  free_refunded = omega arith;
  trace_kept = refl;
}

free_loop-zero : (g : Manager) (z start_pfn i : ℕ) → free_loop g z start_pfn zero i ≡ ok g
unfolding free_loop
free_loop-zero g z start_pfn i = refl

free_loop-suc :
    (g : Manager) (z start_pfn left i lo : ℕ) (p : Page) (h : Manager)
    → add64 start_pfn i ≡ lo
    → get_elem? g.pages lo ≡ some p
    → free_frame g z lo p ≡ ok h
    → free_loop g z start_pfn (suc left) i ≡ free_loop h z start_pfn left (i + 1)
unfolding free_loop
free_loop-suc g z start_pfn left i lo p h here at_lo freed_eq = rw (here, at_lo, freed_eq) refl

-- The loop over owned frames ends without a fault.
module _ (z start_pfn : ℕ) where
  pub free_loop_lem :
      (left i lo : ℕ) (g : Manager) (zone : Zone)
      → lo ≡ start_pfn + i
      → get_elem? g.zones z ≡ some zone
      → zone.nr_free < 2 ^ 64
      → g.free_2m_pages < 2 ^ 64
      → lo + left ≤ 64 * length g.bitmap
      → 64 * length g.bitmap < 2 ^ 64
      → AreOwned g lo left
      → (h : Manager) × (free_loop g z start_pfn left i ≡ ok h) × IsReleased g z zone lo left h
  free_loop_lem zero i lo g zone e at_z a b covered sane owned =
      (g, free_loop-zero g z start_pfn i, IsReleased-zero g z zone lo at_z a b)
  free_loop_lem (suc left) i lo g zone e at_z a b covered sane owned =
      let here : add64 start_pfn i ≡ lo = omega arith in
      let (p, at_lo, own, mine) = owned lo (omega arith) (omega arith) in
      let (words, cleared, written) = clear_bit_lem g.bitmap lo (omega arith) in
      let g1 = freed_one g z zone lo p words at_z at_lo written in
      let size : length words ≡ length g.bitmap = written.same_length in
      let (h, run, rest) =
        free_loop_lem left (i + 1) (lo + 1) g1 (plus_one zone) (omega arith)
          (get_elem?-set_self g.zones z (plus_one zone) (lt_of_get_elem? g.zones z zone at_z))
          (omega arith) (omega arith) (omega arith) (omega arith)
          (λ q le lt.
            let (p', at_q, own', mine') = owned q (omega arith) (omega arith) in
            (p', get_elem?-set_ne g.pages lo q (freed p) (omega arith) ∙ at_q, own', mine')) in
      (
        h,
        free_loop-suc g z start_pfn left i lo p g1 here at_lo
              (free_frame_owned g z zone lo p words at_z at_lo written own cleared mine)
            ∙ run,
        IsReleased-suc g z zone lo p words at_z at_lo written left rest,
      )
