-- ===== src/Memory/Alloc/Mark.antt =====
-- The marking loop of `alloc_pages` over frames that are not in use.
use native.Mathlib.Decide.{ℕ_discrete}
use knos.Base.{
  ℕ, zero, suc, ◌+◌, ◌*◌, ◌^◌, ◌≤◌, ◌<◌, ◌≡◌, ◌≢◌, ◌⊎◌, inl, refl, sym, ◌∙◌, ap, some, List, ok,
  arith, length, get_elem?, set, get_elem?-set_self, get_elem?-set_ne, map-set_same,
  lt_of_get_elem?,
}
use knos.Base.Word.{add64, sub64}
use knos.Memory.{Page, Zone, Manager}
use knos.Memory.WellFormed.{
  Unused, SameShape, SameShape-refl, SameShape-trans, page_shape, zone_shape,
}
use knos.Memory.Bitmap.{set_bit}
use knos.Memory.Bitmap.Laws.{marked, IsWritten, set_bit_lem}
use knos.Memory.Frame.{page_init}
use knos.Memory.Frame.Laws.{taken, minus_one, page_init-Unused}
use knos.Memory.Alloc.{mark}

-- The `n` frames from `lo` on are in the manager, belong to zone `z` and are not in use.
abbrev pub AreUnused : Manager → ℕ → ℕ → ℕ → Type 0
AreUnused g z lo n =
    (i : ℕ)
    → lo ≤ i
    → i < lo + n
    → (p : Page) × (get_elem? g.pages i ≡ some p) × (p.zone ≡ some z) × Unused p

-- `h` is `g` with the `n` frames from `lo` on taken and marked, and with `charge` free pages less in
-- zone `z` (which was `zone`) and in the manager. Nothing else differs.
pub record IsMarked (g : Manager) (z : ℕ) (zone : Zone) (lo n charge flags : ℕ) (h : Manager)
    : Type 0 where
  pub shape : SameShape g h
  pub bits_in : (q : ℕ) → lo ≤ q → q < lo + n → marked h.bitmap q ≡ 1
  pub bits_out : (q : ℕ) → (q < lo) ⊎ (lo + n ≤ q) → marked h.bitmap q ≡ marked g.bitmap q
  pub frames_in :
      (q : ℕ) (p : Page)
      → lo ≤ q
      → q < lo + n
      → get_elem? g.pages q ≡ some p
      → get_elem? h.pages q ≡ some (taken p flags)
  pub frames_out : (q : ℕ) → (q < lo) ⊎ (lo + n ≤ q) → get_elem? h.pages q ≡ get_elem? g.pages q
  pub zone_charged :
      get_elem? h.zones z ≡ some (record zone { nr_free = sub64 zone.nr_free charge })
  pub zones_kept : (y : ℕ) → z ≢ y → get_elem? h.zones y ≡ get_elem? g.zones y
  pub free_charged : h.free_2m_pages ≡ sub64 g.free_2m_pages charge
  pub trace_kept : h.trace ≡ g.trace

-- One frame.
module _ (g : Manager) (z : ℕ) (zone : Zone) (lo flags : ℕ) (p : Page) (words : List ℕ)
    (at_z : get_elem? g.zones z ≡ some zone) (at_lo : get_elem? g.pages lo ≡ some p)
    (written : IsWritten g.bitmap lo 1 words) where
  abbrev taken_one : Manager
  taken_one = record g {
    bitmap = words;
    pages = set g.pages lo (taken p flags);
    zones = set g.zones z (minus_one zone);
    free_2m_pages = sub64 g.free_2m_pages 1;
  }

  taken_one-SameShape : SameShape g taken_one
  taken_one-SameShape = record {
    bitmap_same = written.same_length;
    pages_same = map-set_same page_shape g.pages lo p (taken p flags) at_lo refl;
    zones_same = map-set_same zone_shape g.zones z zone (minus_one zone) at_z refl;
  }

  -- One frame, and then the `n` behind it.
  IsMarked-suc :
      (n : ℕ) {h : Manager}
      → suc n ≤ 2 ^ 64
      → IsMarked taken_one z (minus_one zone) (lo + 1) n n flags h
      → IsMarked g z zone lo (suc n) (suc n) flags h
  IsMarked-suc n {h} few rest = record {
    shape = SameShape-trans taken_one-SameShape rest.shape;
    bits_in = λ q le lt. elim (ℕ_discrete lo q) [
      | yes e ↦ rest.bits_out q (inl (omega arith)) ∙ ap (marked words) (sym e) ∙ written.here
      | no d ↦ rest.bits_in q (omega arith) (omega arith)
    ];
    bits_out = λ q out. rest.bits_out q (omega arith) ∙ written.elsewhere q (omega arith);
    frames_in = λ q p' le lt at_q. elim (ℕ_discrete lo q) [
      | yes e ↦ rest.frames_out q (inl (omega arith)) ∙ first q p' e at_q
      | no d ↦
          rest.frames_in q p' (omega arith) (omega arith)
            (get_elem?-set_ne g.pages lo q (taken p flags) d ∙ at_q)
    ];
    frames_out = λ q out.
        rest.frames_out q (omega arith)
        ∙ get_elem?-set_ne g.pages lo q (taken p flags) (omega arith);
    zone_charged = rest.zone_charged ∙ ap (λ n. some (record zone { nr_free = n })) (omega arith);
    zones_kept = λ y ne. rest.zones_kept y ne ∙ get_elem?-set_ne g.zones z y (minus_one zone) ne;
    free_charged = rest.free_charged ∙ omega arith;
    trace_kept = rest.trace_kept;
  }
    where
      first :
          (q : ℕ) (p' : Page)
          → lo ≡ q
          → get_elem? g.pages q ≡ some p'
          → get_elem? (set g.pages lo (taken p flags)) q ≡ some (taken p' flags)
      first q p' e at_q =
          let same : p ≡ p' = cc (at_lo, ap (get_elem? g.pages) e) in
          ap (get_elem? (set g.pages lo (taken p flags))) (sym e)
          ∙ get_elem?-set_self g.pages lo (taken p flags) (lt_of_get_elem? g.pages lo p at_lo)
          ∙ ap (λ r. some (taken r flags)) same

-- Without a frame to take, only the counts are read as the uint64_t that they are.
IsMarked-zero :
    (g : Manager) (z : ℕ) (zone : Zone) (lo flags : ℕ)
    → get_elem? g.zones z ≡ some zone
    → zone.nr_free < 2 ^ 64
    → g.free_2m_pages < 2 ^ 64
    → IsMarked g z zone lo 0 0 flags g
IsMarked-zero g z zone lo flags at_z a b = record {
  shape = SameShape-refl g;
  bits_in = λ q le lt. absurd (omega arith);
  bits_out = λ q out. refl;
  frames_in = λ q p le lt. absurd (omega arith);
  frames_out = λ q out. refl;
  zone_charged = at_z ∙ ap (λ n. some (record zone { nr_free = n })) (omega arith);
  zones_kept = λ y ne. refl;
  free_charged = omega arith;
  trace_kept = refl;
}

mark-zero : (g : Manager) (found_start flags i : ℕ) → mark g found_start flags zero i ≡ ok g
unfolding mark
mark-zero g found_start flags i = refl

-- One round of the loop.
mark-suc :
    (found_start flags left i lo : ℕ) (g h : Manager) (words : List ℕ)
    → add64 found_start i ≡ lo
    → set_bit g.bitmap lo ≡ ok words
    → page_init (record g { bitmap = words }) (some lo) flags ≡ ok h
    → mark g found_start flags (suc left) i ≡ mark h found_start flags left (i + 1)
unfolding mark
mark-suc found_start flags left i lo g h words here set_eq init_eq = rw (here, set_eq, init_eq) refl

-- The marking loop over frames that are not in use ends without a fault.
module _ (z flags found_start : ℕ) where
  pub mark_lem :
      (left i lo : ℕ) (g : Manager) (zone : Zone)
      → lo ≡ found_start + i
      → get_elem? g.zones z ≡ some zone
      → zone.nr_free < 2 ^ 64
      → g.free_2m_pages < 2 ^ 64
      → lo + left ≤ 64 * length g.bitmap
      → 64 * length g.bitmap < 2 ^ 64
      → AreUnused g z lo left
      → (h : Manager) × (mark g found_start flags left i ≡ ok h)
        × IsMarked g z zone lo left left flags h
  mark_lem zero i lo g zone e at_z a b covered sane unused =
      (g, mark-zero g found_start flags i, IsMarked-zero g z zone lo flags at_z a b)
  mark_lem (suc left) i lo g zone e at_z a b covered sane unused =
      let here : add64 found_start i ≡ lo = omega arith in
      let (p, at_lo, belongs, fresh) = unused lo (omega arith) (omega arith) in
      let (words, set_eq, written) = set_bit_lem g.bitmap lo (omega arith) in
      let g1 = taken_one g z zone lo flags p words at_z at_lo written in
      let size : length words ≡ length g.bitmap = written.same_length in
      let (h, run, marked_rest) =
        mark_lem left (i + 1) (lo + 1) g1 (minus_one zone) (omega arith)
          (get_elem?-set_self g.zones z (minus_one zone) (lt_of_get_elem? g.zones z zone at_z))
          (omega arith) (omega arith) (omega arith) (omega arith)
          (λ q le lt.
            let (p', at_q, back, fresh') = unused q (omega arith) (omega arith) in
            (
              p',
              get_elem?-set_ne g.pages lo q (taken p flags) (omega arith) ∙ at_q,
              back,
              fresh',
            )) in
      (
        h,
        mark-suc found_start flags left i lo g g1 words here set_eq (
              page_init-Unused (record g { bitmap = words }) lo p z zone flags at_lo belongs at_z
                fresh)
            ∙ run,
        IsMarked-suc g z zone lo flags p words at_z at_lo written left (omega arith) marked_rest,
      )
