-- ===== src/Routines/Scan.antt =====
-- `strlen` of kernel/lib.h finds the end of a string.
use knos.Base.{
  ◌≤◌, ◌⊎◌, inl, inr, refl, Bool-cases, ltb, ℕ, zero, suc, ◌+◌, ◌-◌, ◌%◌, ◌^◌, ◌<◌, ◌≡◌, ◌≢◌, ap,
  sym, ◌∙◌, true, false, arith, ◌==◌,
}
use knos.Base.Word.{add64}
use knos.Base.Int.{pos, negsuc}
use knos.Routines.{Bytes, repne_scasb, strlen}

-- The first 0 from `a` on is `k` bytes behind it.
pub record IsString (memory : Bytes) (a k : ℕ) : Type 0 where
  pub ended : memory (a + k) ≡ 0
  pub before : (i : ℕ) → i < k → memory (a + i) ≢ 0

next-IsString : (memory : Bytes) (a k : ℕ) → IsString memory a (suc k) → IsString memory (a + 1) k
next-IsString memory a k h = record {
  ended = ap memory (omega arith) ∙ h.ended;
  before = λ i lt e. h.before (suc i) (omega arith) (ap memory (omega arith) ∙ e);
}

repne_scasb-left :
    (rcx a k : ℕ) (memory : Bytes)
    → a + k < 2 ^ 64
    → k < rcx
    → IsString memory a k
    → repne_scasb rcx a memory ≡ rcx - (k + 1)
unfolding repne_scasb
repne_scasb-left zero a k memory fits lt h = absurd (omega arith)
repne_scasb-left (suc rcx) a zero memory fits lt h =
    let same : a + 0 ≡ a = omega arith in
    let null : memory a ≡ 0 = sym (ap memory same) ∙ h.ended in
    let here : (memory a == 0) ≡ true = ground arith in rw here (omega arith)
repne_scasb-left (suc rcx) a (suc k) memory fits lt h =
    let same : a + 0 ≡ a = omega arith in
    let some_byte : memory a ≢ 0 = λ e. h.before 0 (omega arith) (ap memory same ∙ e) in
    let there : (memory a == 0) ≡ false = ground arith in
    let step : add64 a 1 ≡ a + 1 = omega arith in
    rw (there, step)
      (repne_scasb-left rcx (a + 1) k memory (omega arith) (omega arith)
          (next-IsString memory a k h)
        ∙ omega arith)

-- For a string of `k` bytes before its first 0, fewer than 2 ^ 32 - 1 and inside the address space,
-- `strlen` is `k` below 2 ^ 31, and from there on the negative number `k` - 2 ^ 32.
pub strlen-IsString :
    (memory : Bytes) (a k : ℕ)
    → a + k < 2 ^ 64
    → k < 2 ^ 32 - 1
    → IsString memory a k
    → ((k < 2 ^ 31) × (strlen a memory ≡ pos k))
      ⊎ ((2 ^ 31 ≤ k) × (strlen a memory ≡ negsuc (2 ^ 32 - 1 - k)))
unfolding strlen
strlen-IsString memory a k fits short h =
    let left = repne_scasb-left 0xFFFFFFFF a k memory fits (omega arith) h in
    let res : (2 ^ 32 - 1 - repne_scasb 0xFFFFFFFF a memory + 2 ^ 32 - 1) % 2 ^ 32 ≡ k =
      omega (arith, left) in
    elim (Bool-cases (ltb k (2 ^ 31))) [
      | inl low ↦ inl (ground arith, rw (res, low) refl)
      | inr high ↦ inr (ground arith, rw (res, high) refl)
    ]
