-- ===== src/Memory/Blocks/Counts.antt =====
-- The number of blocks that have a page.
use native.Mathlib.Decide.{dec_lt}
use knos.Base.{
  ℕ, zero, suc, ◌+◌, ◌≤◌, ◌<◌, ◌≡◌, ◌⊎◌, inl, inr, ap, some, some-injective, List, [], ◌∷◌, arith,
  get_elem?,
}
use knos.Memory.Blocks.{Block, covers, cover_count, remove}

pub cover_count-at :
    (bs : List Block) (i : ℕ) (b : Block) (q : ℕ)
    → get_elem? bs i ≡ some b
    → cover_count bs q ≡ covers b q + cover_count (remove i bs) q
unfolding cover_count remove
cover_count-at [] i b q e = absurd (cc e)
cover_count-at (c ∷ bs) zero b q e = ap (λ x. covers x q + cover_count bs q) (some-injective e)
cover_count-at (c ∷ bs) (suc i) b q e = omega (arith, cover_count-at bs i b q e)

pub remove-inv :
    (bs : List Block) (i j : ℕ) (c : Block)
    → get_elem? (remove i bs) j ≡ some c
    → (k : ℕ) × (get_elem? bs k ≡ some c)
unfolding remove
remove-inv [] i j c e = absurd (cc e)
remove-inv (b ∷ bs) zero j c e = (suc j, e)
remove-inv (b ∷ bs) (suc i) zero c e = (zero, e)
remove-inv (b ∷ bs) (suc i) (suc j) c e = let (k, at_k) = remove-inv bs i j c e in (suc k, at_k)

pub covers-inside : (b : Block) (q : ℕ) → b.first ≤ q → q < b.first + b.count → covers b q ≡ 1
covers-inside b q lo hi = ground arith

pub covers-outside : (b : Block) (q : ℕ) → (q < b.first) ⊎ (b.first + b.count ≤ q) → covers b q ≡ 0
covers-outside b q (inl below) = ground arith
covers-outside b q (inr above) = ground arith

pub covers-apart : (b : Block) (q : ℕ) → covers b q ≡ 0 → (q < b.first) ⊎ (b.first + b.count ≤ q)
covers-apart b q e = elim (dec_lt q b.first) [
  | yes below ↦ inl below
  | no above ↦ elim (dec_lt q (b.first + b.count)) [
    | yes inside ↦ absurd (omega (arith, covers-inside b q (omega arith) inside, e))
    | no out ↦ inr (omega arith)
  ]
]
