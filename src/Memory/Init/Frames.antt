-- ===== src/Memory/Init/Frames.antt =====
-- The loop of `init_memory` of kernel/memory.c that gives frames to a zone.
use native.Mathlib.Decide.{dec_lt}
use knos.Base.{
  ℕ, zero, suc, ◌+◌, ◌≤◌, ◌<◌, ◌≡◌, refl, ap, sym, ◌∙◌, ◌⊎◌, inl, inr, true, some, List, ok, arith,
  length, get_elem?, set, length-set, get_elem?-set_self, get_elem?-set_ne, ltb,
}
use knos.Memory.{Page}
use knos.Memory.Init.{fresh_page, own_frames}

-- The frames from `lo` on, `n` of them, now belong to zone `z`, and no other frame has changed.
pub record IsOwned (z n lo : ℕ) (pages result : List Page) : Type 0 where
  pub same_length : length result ≡ length pages
  pub inside : (q : ℕ) → lo ≤ q → q < lo + n → get_elem? result q ≡ some (fresh_page z q)
  pub outside : (q : ℕ) → (q < lo) ⊎ (lo + n ≤ q) → get_elem? result q ≡ get_elem? pages q

pub own_frames_lem :
    (z n lo : ℕ) (pages : List Page)
    → lo + n ≤ length pages
    → (r : List Page) × (own_frames z n lo pages ≡ ok r) × IsOwned z n lo pages r
unfolding own_frames
own_frames_lem z zero lo pages fits = (
  pages,
  refl,
  record { same_length = refl; inside = λ q le lt. absurd (omega arith); outside = λ q out. refl },
)
own_frames_lem z (suc n) lo pages fits =
    let here : ltb lo (length pages) ≡ true = ground arith in
    let pages' = set pages lo (fresh_page z lo) in
    let same : length pages' ≡ length pages = length-set pages lo (fresh_page z lo) in
    let (r, e, rest) = own_frames_lem z n (lo + 1) pages' (omega (arith, same)) in
    (
      r,
      rw (here, own_frames) e,
      record {
        same_length = rest.same_length ∙ same;
        inside = λ q le lt. elim (dec_lt lo q) [
          | yes above ↦ rest.inside q (omega arith) (omega arith)
          | no first ↦
              let at_lo : lo ≡ q = omega arith in
              rest.outside q (inl (omega arith))
              ∙ (ap (get_elem? pages') (sym at_lo)
                  ∙ (get_elem?-set_self pages lo (fresh_page z lo) (omega arith)
                      ∙ ap (λ i. some (fresh_page z i)) at_lo))
        ];
        outside = λ q out.
            rest.outside q (elim out [ inl lt ↦ inl (omega arith) | inr le ↦ inr (omega arith) ])
            ∙ get_elem?-set_ne pages lo q (fresh_page z lo)
                (elim out [ inl lt ↦ λ e. omega arith | inr le ↦ λ e. omega arith ]);
      },
    )
