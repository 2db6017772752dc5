-- ===== src/Memory/Lifecycle.antt =====
-- `alloc_pages` and `free_pages` of kernel/memory.c together: what a caller that allocates, and gives
-- back what it got, can rely on.
use mathlib.Core.Path.{subst}
use native.Mathlib.Decide.{dec_lt}
use knos.Base.{
  ℕ, ◌+◌, ◌-◌, ◌*◌, ◌≤◌, ◌<◌, ◌≡◌, ◌≢◌, ◌⊎◌, inl, inr, sym, ◌∙◌, ap, some, ◌∷◌, ok, arith,
  get_elem?,
}
use knos.Base.Word.{sub64}
use knos.Memory.{Page, Zone, ZoneType, Manager, tlb_flushed}
use knos.Memory.WellFormed.{IsWellFormed, length-pages_same}
use knos.Memory.Bitmap.Laws.{marked}
use knos.Memory.Frame.Laws.{taken}
use knos.Memory.Alloc.{alloc_pages}
use knos.Memory.Alloc.Correct.{
  HasFairCounts, IsAllocated, IsAllocated-IsWellFormed, alloc_pages_lem,
}
use knos.Memory.Free.{free_pages}
use knos.Memory.Free.Loop.{AreOwned, IsReleased}
use knos.Memory.Free.Correct.{taken-IsOwned, free_pages_lem}

-- The manager after an allocation of `nr` pages from `b` on out of zone `z` (which was `zone`) and
-- their return. Every bit of the bitmap is as it was; the frames of the run have no flag and no
-- reference, all others are as they were; the zone and the manager claim `nr` free pages less than
-- at the start.
pub record IsReturned (g : Manager) (z : ℕ) (zone : Zone) (b nr : ℕ) (k : Manager) : Type 0 where
  pub bits : (q : ℕ) → marked k.bitmap q ≡ marked g.bitmap q
  pub frames_in :
      (q : ℕ) (p : Page)
      → b ≤ q
      → q < b + nr
      → get_elem? g.pages q ≡ some p
      → get_elem? k.pages q ≡ some (record p { ref_count = 0; flags = 0 })
  pub frames_out : (q : ℕ) → (q < b) ⊎ (b + nr ≤ q) → get_elem? k.pages q ≡ get_elem? g.pages q
  pub zone_short : get_elem? k.zones z ≡ some (record zone { nr_free = sub64 zone.nr_free nr })
  pub zones_kept : (y : ℕ) → z ≢ y → get_elem? k.zones y ≡ get_elem? g.zones y
  pub free_short : k.free_2m_pages ≡ sub64 g.free_2m_pages nr
  pub flushed : k.trace ≡ tlb_flushed ∷ g.trace

-- A successful call is the third outcome.
pub alloc_pages-inv :
    {g : Manager} (t : ZoneType) (nr flags b : ℕ) (h : Manager)
    → IsWellFormed g
    → HasFairCounts g
    → 0 < nr
    → nr ≤ 64
    → alloc_pages g t nr flags ≡ ok (some b, h)
    → (z : ℕ) × (zone : Zone) × IsAllocated g t nr flags z zone b h
alloc_pages-inv {g} t nr flags b h wf fair pos small e =
    elim (alloc_pages_lem t nr flags wf fair pos small) [
      | inl (refused, e') ↦ absurd (cc e')
      | inr (inl (z, zone, at_z, offered, first, e')) ↦ absurd (cc e')
      | inr (inr (z, zone, b', h', e', a)) ↦
          let same_b : b' ≡ b = cc e' in
          let same_h : h' ≡ h = cc e' in
          (
            z,
            zone,
            subst (λ x. IsAllocated g t nr flags z zone x h) same_b
                (subst (IsAllocated g t nr flags z zone b') same_h a),
          )
    ]

module _ {g : Manager} {t : ZoneType} {nr flags z : ℕ} {zone : Zone} {b : ℕ} {h : Manager}
    (a : IsAllocated g t nr flags z zone b h) where
  -- The frames of an allocation belong to the caller.
  pub allocated-AreOwned : IsWellFormed g → AreOwned h b nr
  allocated-AreOwned wf i le lt =
      let placed = wf.placed z zone a.at_z in
      let (p, at_i, back) = placed.frames i (omega (arith, a.above)) (omega (arith, a.below)) in
      (
        taken p flags,
        a.effect.frames_in i p le lt at_i,
        wf.numbered i p at_i,
        taken-IsOwned p flags,
      )

  returned :
      {k : Manager}
      → IsReleased h z (record zone { nr_free = sub64 zone.nr_free (2 * nr) }) b nr k
      → nr ≤ 64
      → IsReturned g z zone b nr (record k { trace = tlb_flushed ∷ k.trace })
  returned {k} r small = record {
    bits = λ q. elim (dec_lt q b) [
      | yes out ↦ r.bits_out q (inl out) ∙ a.effect.bits_out q (inl out)
      | no above ↦ elim (dec_lt q (b + nr)) [
        | yes below ↦ r.bits_in q (omega arith) below ∙ sym (was_free q (omega arith) below)
        | no out ↦ r.bits_out q (inr (omega arith)) ∙ a.effect.bits_out q (inr (omega arith))
      ]
    ];
    frames_in = λ q p le lt e. r.frames_in q (taken p flags) le lt (a.effect.frames_in q p le lt e);
    frames_out = λ q out. r.frames_out q out ∙ a.effect.frames_out q out;
    zone_short = r.zone_refunded ∙ ap (λ n. some (record zone { nr_free = n })) (omega arith);
    zones_kept = λ y ne. r.zones_kept y ne ∙ a.effect.zones_kept y ne;
    free_short = omega (arith, r.free_refunded, a.effect.free_charged);
    flushed = ap (λ l. tlb_flushed ∷ l) (r.trace_kept ∙ a.effect.trace_kept);
  }
    where
      was_free : (q : ℕ) → b ≤ q → q < b + nr → marked g.bitmap q ≡ 0
      was_free q le lt =
          let e : b + (q - b) ≡ q = omega arith in
          ap (marked g.bitmap) (sym e) ∙ a.was_free (q - b) (omega arith)

-- The pages that a successful `alloc_pages` returned can be given back with the same number: the
-- call of `free_pages` ends without a fault, and leaves the manager as `IsReturned` says.
pub free_pages-alloc_pages :
    {g : Manager} (t : ZoneType) (nr flags b : ℕ) (h : Manager)
    → IsWellFormed g
    → HasFairCounts g
    → 0 < nr
    → nr ≤ 64
    → alloc_pages g t nr flags ≡ ok (some b, h)
    → (z : ℕ) × (zone : Zone) × (k : Manager) × (get_elem? g.zones z ≡ some zone)
      × (free_pages h (some b) nr ≡ ok k)
      × IsReturned g z zone b nr k
free_pages-alloc_pages {g} t nr flags b h wf fair pos small e =
    let (z, zone, a) = alloc_pages-inv t nr flags b h wf fair pos small e in
    let wf' = IsAllocated-IsWellFormed a wf in
    let (p, at_b, back) = (wf.placed z zone a.at_z).frames b a.above (omega (arith, a.below)) in
    let (k, run, released) =
      free_pages_lem b nr z (record zone { nr_free = sub64 zone.nr_free (2 * nr) }) (taken p flags)
        wf' pos a.effect.zone_charged (omega arith) (omega (arith, a.effect.free_charged))
        (a.effect.frames_in b p (omega arith) (omega arith) at_b) back
        (omega (arith, a.below, (wf.placed z zone a.at_z).end_le, length-pages_same a.effect.shape))
        (allocated-AreOwned a wf) in
    (z, zone, record k { trace = tlb_flushed ∷ k.trace }, a.at_z, run, returned a released small)

-- Two allocations with no return between them never share a page.
pub alloc_pages_disjoint :
    {g h k : Manager} (t t' : ZoneType) (nr nr' flags flags' b b' : ℕ)
    → IsWellFormed g
    → HasFairCounts g
    → HasFairCounts h
    → (0 < nr) × (nr ≤ 64)
    → (0 < nr') × (nr' ≤ 64)
    → alloc_pages g t nr flags ≡ ok (some b, h)
    → alloc_pages h t' nr' flags' ≡ ok (some b', k)
    → (b + nr ≤ b') ⊎ (b' + nr' ≤ b)
alloc_pages_disjoint {h} {k} t t' nr nr' flags flags' b b' wf fair fair' size size' e e' =
    let (z, zone, a) = alloc_pages-inv t nr flags b h wf fair size.0 size.1 e in
    let wf' = IsAllocated-IsWellFormed a wf in
    let (z', zone', a') = alloc_pages-inv t' nr' flags' b' k wf' fair' size'.0 size'.1 e' in
    let apart : (q : ℕ) → b ≤ q → q < b + nr → b' ≤ q → q < b' + nr' → ⊥ = λ q l r l' r'.
      let back : b' + (q - b') ≡ q = omega arith in
      omega (
        arith,
        a.effect.bits_in q l r,
        ap (marked h.bitmap) back,
        a'.was_free (q - b') (omega arith),
      ) in
    elim (dec_lt b' b) [
      | yes lt ↦ elim (dec_lt b (b' + nr')) [
        | yes overlap ↦ absurd (apart b (omega arith) (omega arith) (omega arith) overlap)
        | no fine ↦ inr (omega arith)
      ]
      | no ge ↦ elim (dec_lt b' (b + nr)) [
        | yes overlap ↦ absurd (apart b' (omega arith) overlap (omega arith) (omega arith))
        | no fine ↦ inl (omega arith)
      ]
    ]
