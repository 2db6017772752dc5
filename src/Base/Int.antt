-- ===== src/Base/Int.antt =====
-- Signed integers over the native numbers: the values of an int32_t or int64_t.
use Prim.Native.Nat.{ℕ, suc, ◌+◌, ◌-◌, ◌≤◌}
use mathlib.Core.Path.{◌≡◌}
use native.Mathlib.Omega.{arith}
use mathlib.Core.Bool.{Bool, true, false}
use knos.Base.Tests.{leb, ltb, if◌then◌else◌}

-- `negsuc n` is -(n + 1).
pub data ℤ : Type 0 where
  pos : ℕ → ℤ
  negsuc : ℕ → ℤ

abbrev pub is_negative : ℤ → Bool
is_negative (pos n) = false
is_negative (negsuc n) = true

-- The number itself, or 0 if it is negative: how often `while (n-- > 0)` goes round.
abbrev pub rounds : ℤ → ℕ
rounds (pos n) = n
rounds (negsuc n) = 0

abbrev pub magnitude : ℤ → ℕ
magnitude (pos n) = n
magnitude (negsuc n) = suc n

-- Less `n`.
abbrev pub minus : ℤ → ℕ → ℤ
minus (pos m) n = if leb n m then pos (m - n) else negsuc (n - m - 1)
minus (negsuc m) n = negsuc (m + n)

-- More by `n`.
abbrev pub plus : ℤ → ℕ → ℤ
plus (pos m) n = pos (m + n)
plus (negsuc m) n = if ltb m n then pos (n - m - 1) else negsuc (m - n)

-- `z >= n`
abbrev pub reaches : ℤ → ℕ → Bool
reaches (pos m) n = leb n m
reaches (negsuc m) n = false

pub minus_pos : (m n : ℕ) → n ≤ m → minus (pos m) n ≡ pos (m - n)
minus_pos m n h = ground arith

pub minus_bound : (z : ℤ) (x n m : ℕ) → z ≡ pos x → minus z n ≡ pos m → m ≤ x
minus_bound (pos y) x n m e f = ground arith
minus_bound (negsuc y) x n m e f = absurd (cc)
