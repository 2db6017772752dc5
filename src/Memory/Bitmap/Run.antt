-- ===== src/Memory/Bitmap/Run.antt =====
-- The bits of a run of pages set one after the other.
use native.Mathlib.Decide.{ℕ_discrete}
use knos.Base.{
  ℕ, suc, ◌+◌, ◌≤◌, ◌<◌, ◌≡◌, ◌≢◌, refl, ap, sym, ◌∙◌, ◌⊎◌, inl, inr, List, arith, length,
}
use knos.Memory.Bitmap.Laws.{marked, IsWritten}

-- The pages from `first` on, `n` of them, are marked, and no other mark changes.
pub record IsMarkedRun (words : List ℕ) (n first : ℕ) (result : List ℕ) : Type 0 where
  pub same_length : length result ≡ length words
  pub inside : (q : ℕ) → first ≤ q → q < first + n → marked result q ≡ 1
  pub outside : (q : ℕ) → (q < first) ⊎ (first + n ≤ q) → marked result q ≡ marked words q

pub IsMarkedRun-nil : (first : ℕ) (words : List ℕ) → IsMarkedRun words 0 first words
IsMarkedRun-nil first words = record {
  same_length = refl;
  inside = λ q le lt. absurd (omega arith);
  outside = λ q out. refl;
}

next_outside :
    (n first q : ℕ) → (q < first) ⊎ (first + suc n ≤ q) → (q < first + 1) ⊎ (first + 1 + n ≤ q)
next_outside n first q (inl lt) = inl (omega arith)
next_outside n first q (inr le) = inr (omega arith)

here_outside : (n first q : ℕ) → (q < first) ⊎ (first + suc n ≤ q) → first ≢ q
here_outside n first q (inl lt) = λ same. omega arith
here_outside n first q (inr le) = λ same. omega arith

pub IsMarkedRun-cons :
    {words middle result : List ℕ} (n first : ℕ)
    → IsWritten words first 1 middle
    → IsMarkedRun middle n (first + 1) result
    → IsMarkedRun words (suc n) first result
IsMarkedRun-cons {middle = middle} n first one rest = record {
  same_length = rest.same_length ∙ one.same_length;
  inside = λ q le lt. elim (ℕ_discrete first q) [
    | yes same ↦ rest.outside q (inl (omega arith)) ∙ (ap (marked middle) (sym same) ∙ one.here)
    | no differ ↦ rest.inside q (omega arith) (omega arith)
  ];
  outside = λ q out.
      rest.outside q (next_outside n first q out) ∙ one.elsewhere q (here_outside n first q out);
}
