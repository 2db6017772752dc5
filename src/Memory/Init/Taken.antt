-- ===== src/Memory/Init/Taken.antt =====
-- The frames of the kernel's pages behind `init_memory` of kernel/memory.c.
use native.Mathlib.Decide.{ℕ_discrete}
use knos.Base.{
  ℕ, zero, suc, ◌+◌, ◌≤◌, ◌<◌, ◌≡◌, ◌≢◌, refl, ap, sym, ◌∙◌, ◌⊎◌, inl, inr, none, some, Option,
  List, ok, ok-injective, >>=-ok, in_range, in_range-ok, arith, get_elem?, set, get_elem?-set_self,
  get_elem?-set_ne, lt_of_get_elem?,
}
use knos.Memory.{Page, Zone, Manager}
use knos.Memory.Bitmap.{set_bit}
use knos.Memory.Init.{charge_zone, charged, kernel_flags, take_kernel_page, take_kernel_pages}

charged-pages : (g : Manager) (o : Option (List Zone)) → (charged g o).pages ≡ g.pages
charged-pages g none = refl
charged-pages g (some zones) = refl

-- One page.
one-pages :
    (pfn : ℕ) (g h : Manager)
    → take_kernel_page pfn g ≡ ok h
    → (p : Page) × (get_elem? g.pages pfn ≡ some p)
      × (h.pages ≡ set g.pages pfn (record p { flags = kernel_flags; ref_count = 1 }))
unfolding take_kernel_page
one-pages pfn g h run =
    let (words, marked_it, behind) = >>=-ok (set_bit g.bitmap pfn) _ run in
    let (p, at_pfn, last) = >>=-ok (in_range (get_elem? g.pages pfn)) _ behind in
    (
      p,
      in_range-ok _ at_pfn,
      ap (λ k. k.pages) (sym (ok-injective last))
          ∙ charged-pages
              (record g {
                bitmap = words;
                pages = set g.pages pfn (record p { flags = kernel_flags; ref_count = 1 });
              })
              (charge_zone pfn g.zones),
    )

-- Where the loop over the kernel's pages ends, the frames from `lo` on, `n` of them, are in use by the
-- kernel, once each, and all others are as they were.
pub taken-pages :
    (n lo : ℕ) (g h : Manager)
    → take_kernel_pages n lo g ≡ ok h
    → ((q : ℕ)
        → lo ≤ q
        → q < lo + n
        → (p : Page) × (get_elem? g.pages q ≡ some p)
          × (get_elem? h.pages q ≡ some (record p { flags = kernel_flags; ref_count = 1 })))
      × ((q : ℕ) → (q < lo) ⊎ (lo + n ≤ q) → get_elem? h.pages q ≡ get_elem? g.pages q)
unfolding take_kernel_pages
taken-pages zero lo g h run = (
  λ q le lt. absurd (omega arith),
  λ q out. ap (λ k. get_elem? k.pages q) (sym (ok-injective run)),
)
taken-pages (suc n) lo g h run =
    let (g1, one, rest) = >>=-ok (take_kernel_page lo g) _ run in
    let (p, at_lo, changed) = one-pages lo g g1 one in
    let (inside, outside) = taken-pages n (lo + 1) g1 h rest in
    let new = record p { flags = kernel_flags; ref_count = 1 } in
    let elsewhere : (q : ℕ) → lo ≢ q → get_elem? g1.pages q ≡ get_elem? g.pages q =
      λ q ne. ap (λ ps. get_elem? ps q) changed ∙ get_elem?-set_ne g.pages lo q new ne in
    (
      λ q le lt. elim (ℕ_discrete lo q) [
        | no ne ↦
            let (old, before, now) = inside q (omega arith) (omega arith) in
            (old, sym (elsewhere q ne) ∙ before, now)
        | yes same ↦ (
          p,
          ap (get_elem? g.pages) (sym same) ∙ at_lo,
          outside q (inl (omega arith))
              ∙ (ap (λ ps. get_elem? ps q) changed
                  ∙ (ap (get_elem? (set g.pages lo new)) (sym same)
                      ∙ get_elem?-set_self g.pages lo new (lt_of_get_elem? g.pages lo p at_lo))),
        )
      ],
      λ q out.
          outside q (elim out [ inl lt ↦ inl (omega arith) | inr le ↦ inr (omega arith) ])
          ∙ elsewhere q (elim out [ inl lt ↦ λ e. omega arith | inr le ↦ λ e. omega arith ]),
    )
