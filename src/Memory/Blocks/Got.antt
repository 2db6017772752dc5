-- ===== src/Memory/Blocks/Got.antt =====
-- A call of `alloc_pages` of kernel/memory.c, and the blocks.
use mathlib.Core.Path.{subst}
use native.Mathlib.Decide.{dec_lt}
use knos.Base.{
  ℕ, zero, suc, ◌+◌, ◌-◌, ◌≤◌, ◌<◌, ◌≡◌, ◌⊎◌, inl, inr, ap, sym, ◌∙◌, none, some, some-injective,
  List, [], ◌∷◌, ok, ok-injective, arith, length, get_elem?,
}
use knos.Memory.{Zone, ZoneType, Manager}
use knos.Memory.WellFormed.{IsWellFormed, length-pages_same}
use knos.Memory.Bitmap.Laws.{marked}
use knos.Memory.Frame.Laws.{taken}
use knos.Memory.Alloc.{alloc_pages}
use knos.Memory.Alloc.Correct.{HasFairCounts, IsAllocated, alloc_pages_lem}
use knos.Memory.Alloc.Keeps.{alloc_pages-IsWellFormed}
use knos.Memory.Lifecycle.{alloc_pages-inv, allocated-AreOwned}
use knos.Memory.Blocks.{Block, covers, cover_count}
use knos.Memory.Blocks.Counts.{covers-inside, covers-outside}
use knos.Memory.Blocks.Held.{IsHeld, Refines, IsHeld-kept, held-marked}

-- A client gets a block.
pub got-Refines :
    {g h k : Manager} {bs : List Block} (t : ZoneType) (nr flags b : ℕ)
    → Refines g bs h
    → HasFairCounts h
    → 0 < nr
    → nr ≤ 64
    → alloc_pages h t nr flags ≡ ok (some b, k)
    → Refines g (record { first = b; count = nr } ∷ bs) k
unfolding cover_count
got-Refines {g} {h} {k} {bs} t nr flags b is fair pos small e =
    let (z, zone, a) = alloc_pages-inv t nr flags b k is.well_formed fair pos small e in
    let placed = is.well_formed.placed z zone a.at_z in
    let (p, at_b, back) = placed.frames b a.above (omega (arith, a.below)) in
    let size = length-pages_same a.effect.shape in
    record {
      well_formed = alloc_pages-IsWellFormed h t nr flags (some b) is.well_formed e;
      bits = bits z zone a;
      held = held z zone a size (record {
        some_page = pos;
        inside = omega (arith, size, a.below, placed.end_le);
        owned = allocated-AreOwned a is.well_formed;
        zoned = (z, taken p flags, a.effect.frames_in b p (omega arith) (omega arith) at_b, back);
      });
    }
  where
    new : Block
    new = record { first = b; count = nr }

    free_before :
        (z : ℕ) (zone : Zone)
        → IsAllocated h t nr flags z zone b k
        → (q : ℕ) → b ≤ q
        → q < b + nr
        → marked h.bitmap q ≡ 0
    free_before z zone a q lo hi =
        let place : b + (q - b) ≡ q = omega arith in
        ap (marked h.bitmap) (sym place) ∙ a.was_free (q - b) (omega arith)

    bits :
        (z : ℕ) (zone : Zone)
        → IsAllocated h t nr flags z zone b k
        → (q : ℕ) → marked k.bitmap q ≡ marked g.bitmap q + (covers new q + cover_count bs q)
    bits z zone a q = elim (dec_lt q b) [
      | yes below ↦
          omega
            (arith, a.effect.bits_out q (inl below), is.bits q, covers-outside new q (inl below))
      | no above ↦ elim (dec_lt q (b + nr)) [
        | yes inside ↦ omega (
          arith,
          a.effect.bits_in q (omega arith) inside,
          free_before z zone a q (omega arith) inside,
          is.bits q,
          covers-inside new q (omega arith) inside,
        )
        | no out ↦ omega (
          arith,
          a.effect.bits_out q (inr (omega arith)),
          is.bits q,
          covers-outside new q (inr (omega arith)),
        )
      ]
    ]

    apart :
        (z : ℕ) (zone : Zone)
        → IsAllocated h t nr flags z zone b k
        → (q : ℕ) → marked h.bitmap q ≡ 1
        → (q < b) ⊎ (b + nr ≤ q)
    apart z zone a q one = elim (dec_lt q b) [
      | yes below ↦ inl below
      | no above ↦ elim (dec_lt q (b + nr)) [
        | yes inside ↦ absurd (omega (arith, one, free_before z zone a q (omega arith) inside))
        | no out ↦ inr (omega arith)
      ]
    ]

    held :
        (z : ℕ) (zone : Zone)
        → IsAllocated h t nr flags z zone b k
        → length k.pages ≡ length h.pages
        → IsHeld k new
        → (i : ℕ) (c : Block) → get_elem? (new ∷ bs) i ≡ some c
        → IsHeld k c
    held z zone a size mine zero c at_c = subst (IsHeld k) (some-injective at_c) mine
    held z zone a size mine (suc i) c at_c =
        IsHeld-kept h k c size
          (λ q lo hi. a.effect.frames_out q (apart z zone a q (held-marked i c q is at_c lo hi)))
          (is.held i c at_c)

-- The code that refuses changes the trace only.
refused-bits :
    {h k : Manager} (t : ZoneType) (nr flags : ℕ)
    → IsWellFormed h
    → HasFairCounts h
    → 0 < nr
    → nr ≤ 64
    → alloc_pages h t nr flags ≡ ok (none, k)
    → (k.bitmap ≡ h.bitmap) × (k.pages ≡ h.pages)
refused-bits {h} {k} t nr flags wf fair pos small e =
    elim (alloc_pages_lem t nr flags wf fair pos small) [
      | inl (none_left, e') ↦
          let same = ok-injective (sym e' ∙ e) in
          (ap (λ x. x.1.bitmap) (sym same), ap (λ x. x.1.pages) (sym same))
      | inr (inl (z, zone, at_z, offered, first, e')) ↦
          let same = ok-injective (sym e' ∙ e) in
          (ap (λ x. x.1.bitmap) (sym same), ap (λ x. x.1.pages) (sym same))
      | inr (inr (z, zone, b, h', e', a)) ↦ absurd (cc (ap (λ x. x.0) (ok-injective (sym e' ∙ e))))
    ]

pub start-Refines : {g : Manager} → IsWellFormed g → Refines g [] g
unfolding cover_count
start-Refines wf = record {
  well_formed = wf;
  bits = λ q. omega arith;
  held = λ i b e. absurd (cc e);
}

pub refused-Refines :
    {g h k : Manager} {bs : List Block} (t : ZoneType) (nr flags : ℕ)
    → Refines g bs h
    → HasFairCounts h
    → 0 < nr
    → nr ≤ 64
    → alloc_pages h t nr flags ≡ ok (none, k)
    → Refines g bs k
refused-Refines {g} {h} {k} t nr flags is fair pos small e =
    let (bitmap, pages) = refused-bits t nr flags is.well_formed fair pos small e in
    record {
      well_formed = alloc_pages-IsWellFormed h t nr flags none is.well_formed e;
      bits = λ q. ap (λ w. marked w q) bitmap ∙ is.bits q;
      held = λ i b at_i.
          IsHeld-kept h k b (ap length pages) (λ q lo hi. ap (λ ps. get_elem? ps q) pages)
            (is.held i b at_i);
    }
