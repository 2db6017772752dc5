-- ===== src/Memory/Blocks/Gave.antt =====
-- A call of `free_pages` of kernel/memory.c, and the blocks.
use mathlib.Core.Path.{subst}
use native.Mathlib.Decide.{dec_lt}
use knos.Base.{
  ℕ, ◌+◌, ◌≤◌, ◌<◌, ◌≡◌, inl, inr, ap, sym, ◌∙◌, some, List, ◌∷◌, ok, ok-injective, arith,
  get_elem?, get_elem?_of_lt,
}
use knos.Memory.{Zone, Manager, tlb_flushed}
use knos.Memory.WellFormed.{length-pages_same}
use knos.Memory.Bitmap.Laws.{marked, marked-le-one}
use knos.Memory.Free.{free_pages}
use knos.Memory.Free.Keeps.{free_pages-IsWellFormed}
use knos.Memory.Free.Loop.{IsReleased}
use knos.Memory.Free.Correct.{free_pages_lem}
use knos.Memory.Blocks.{Block, covers, cover_count, remove, AreCounts}
use knos.Memory.Blocks.Counts.{
  cover_count-at, remove-inv, covers-inside, covers-outside, covers-apart,
}
use knos.Memory.Blocks.Held.{IsHeld, Refines, IsHeld-kept}

-- The call of `free_pages` on a block that the client holds.
pub give_back :
    {g h : Manager} {bs : List Block} (i : ℕ) (b : Block)
    → Refines g bs h
    → AreCounts h
    → get_elem? bs i ≡ some b
    → (z : ℕ) × (zone : Zone) × (k : Manager) × (free_pages h (some b.first) b.count
        ≡ ok (record k { trace = tlb_flushed ∷ k.trace }))
      × IsReleased h z zone b.first b.count k
give_back {g} {h} i b is counts at_i =
    let mine = is.held i b at_i in
    let (z, p, at_b, back) = mine.zoned in
    let (zone, at_z) = get_elem?_of_lt h.zones z (is.well_formed.linked b.first p z at_b back) in
    let (k, run, released) =
      free_pages_lem b.first b.count z zone p is.well_formed mine.some_page at_z
        (counts.zone_fits z zone at_z) counts.free_fits at_b back mine.inside mine.owned in
    (z, zone, k, run, released)

-- A client gives a block back.
pub gave-Refines :
    {g h k : Manager} {bs : List Block} (i : ℕ) (b : Block)
    → Refines g bs h
    → AreCounts h
    → get_elem? bs i ≡ some b
    → free_pages h (some b.first) b.count ≡ ok k
    → Refines g (remove i bs) k
gave-Refines {g} {h} {k} {bs} i b is counts at_i e =
    let (z, zone, k', run, released) = give_back i b is counts at_i in
    let same : record k' { trace = tlb_flushed ∷ k'.trace } ≡ k = ok-injective (sym run ∙ e) in
    record {
      well_formed = free_pages-IsWellFormed h (some b.first) b.count is.well_formed e;
      bits = λ q. ap (λ m. marked m.bitmap q) (sym same) ∙ bits z zone k' released q;
      held = λ j c at_c.
          let (old, at_old) = remove-inv bs i j c at_c in
          subst (λ m. IsHeld m c) same
            (IsHeld-kept h (record k' { trace = tlb_flushed ∷ k'.trace }) c
              (length-pages_same released.shape)
              (λ q lo hi. released.frames_out q (covers-apart b q (apart j c q at_c lo hi)))
              (is.held old c at_old));
    }
  where
    bits :
        (z : ℕ) (zone : Zone) (m : Manager)
        → IsReleased h z zone b.first b.count m
        → (q : ℕ) → marked m.bitmap q ≡ marked g.bitmap q + cover_count (remove i bs) q
    bits z zone m released q = elim (dec_lt q b.first) [
      | yes below ↦ omega (
        arith,
        released.bits_out q (inl below),
        is.bits q,
        cover_count-at bs i b q at_i,
        covers-outside b q (inl below),
      )
      | no above ↦ elim (dec_lt q (b.first + b.count)) [
        | yes inside ↦ omega (
          arith,
          released.bits_in q (omega arith) inside,
          is.bits q,
          cover_count-at bs i b q at_i,
          covers-inside b q (omega arith) inside,
          marked-le-one h.bitmap q,
        )
        | no out ↦ omega (
          arith,
          released.bits_out q (inr (omega arith)),
          is.bits q,
          cover_count-at bs i b q at_i,
          covers-outside b q (inr (omega arith)),
        )
      ]
    ]

    apart :
        (j : ℕ) (c : Block) (q : ℕ)
        → get_elem? (remove i bs) j ≡ some c
        → c.first ≤ q
        → q < c.first + c.count
        → covers b q ≡ 0
    apart j c q at_c lo hi = omega (
      arith,
      is.bits q,
      cover_count-at bs i b q at_i,
      cover_count-at (remove i bs) j c q at_c,
      covers-inside c q lo hi,
      marked-le-one h.bitmap q,
    )
