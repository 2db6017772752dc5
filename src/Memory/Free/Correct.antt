-- ===== src/Memory/Free/Correct.antt =====
-- `free_pages` on pages that the caller owns, and behind `alloc_pages`.
use knos.Base.{
  ℕ, ◌+◌, ◌^◌, ◌≤◌, ◌<◌, ◌≡◌, inl, inr, refl, ◌∙◌, ap, false, bit_and, bit_or, some, ◌∷◌, ok, arith,
  length, get_elem?, ◌==◌, leb, Bool-cases, ==→eq,
}
use knos.Base.Bits.{bit, bit-zero, bit-bit_and, bit-bit_or, bit-le-one, bit-pow_self}
use knos.Memory.{Page, Zone, Manager, page_used, tlb_flushed}
use knos.Memory.WellFormed.{IsWellFormed}
use knos.Memory.Frame.Laws.{taken}
use knos.Memory.Free.{free_loop, free_pages}
use knos.Memory.Free.Loop.{IsOwned, AreOwned, IsReleased, free_loop_lem}

free_pages-loop :
    (g : Manager) (b nr z : ℕ) (p : Page) {h : Manager}
    → get_elem? g.pages b ≡ some p
    → p.pfn ≡ b
    → p.zone ≡ some z
    → (nr == 0) ≡ false
    → leb (length g.pages) b ≡ false
    → free_loop g z b nr 0 ≡ ok h
    → free_pages g (some b) nr ≡ ok (record h { trace = tlb_flushed ∷ h.trace })
unfolding free_pages
free_pages-loop g b nr z p at_b own back some_pages inside run =
    rw (some_pages, at_b, back, own, inside, run) refl

-- Pages that are in use, not shared, and start in zone `z`: `free_pages` ends without a fault, gives
-- all of them back, and flushes the TLB once.
pub free_pages_lem :
    {g : Manager} (b nr z : ℕ) (zone : Zone) (p : Page)
    → IsWellFormed g
    → 0 < nr
    → get_elem? g.zones z ≡ some zone
    → zone.nr_free < 2 ^ 64
    → g.free_2m_pages < 2 ^ 64
    → get_elem? g.pages b ≡ some p
    → p.zone ≡ some z
    → b + nr ≤ length g.pages
    → AreOwned g b nr
    → (h : Manager) × (free_pages g (some b) nr ≡ ok (record h { trace = tlb_flushed ∷ h.trace }))
      × IsReleased g z zone b nr h
free_pages_lem {g} b nr z zone p wf pos at_z fits fits' at_b back inside owned =
    let (h, run, released) =
      free_loop_lem z b nr 0 b g zone (omega arith) at_z fits fits' (omega (arith, wf.covers))
        wf.addressable owned in
    (
      h,
      free_pages-loop g b nr z p at_b (wf.numbered b p at_b) back (ground arith) (ground arith) run,
      released,
    )

used_bit : bit page_used 1 ≡ 1
used_bit = bit-pow_self 1

-- A frame that `page_init` has just taken is in use and not shared.
pub taken-IsOwned : (p : Page) (flags : ℕ) → IsOwned (taken p flags)
taken-IsOwned p flags = (
  elim (Bool-cases (bit_and (bit_or flags page_used) page_used == 0)) [
    | inl e ↦ absurd (omega (arith, seen, unseen (==→eq _ 0 e)))
    | inr e ↦ e
  ],
  omega arith,
)
  where
    seen : bit (bit_and (bit_or flags page_used) page_used) 1 ≡ 1
    seen =
        bit-bit_and (bit_or flags page_used) page_used 1
        ∙ (omega (arith, bit-bit_or flags page_used 1, bit-le-one flags 1, used_bit))

    unseen :
        bit_and (bit_or flags page_used) page_used ≡ 0
        → bit (bit_and (bit_or flags page_used) page_used) 1 ≡ 0
    unseen e = ap (λ w. bit w 1) e ∙ bit-zero 1
