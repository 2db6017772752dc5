-- ===== src/Routines/Tests.antt =====
-- The memory routines on a small memory.
use knos.Base.{◌≤◌, ◌<◌, ◌⊎◌, ◌^◌, ◌-◌, ℕ, ◌+◌, ◌%◌, ◌≡◌, refl, inl, arith, if◌then◌else◌, ltb}
use knos.Base.Int.{pos, negsuc}
use knos.Routines.{Bytes, memcpy, memset, strlen}
use knos.Routines.Copy.{IsCopied, memcpy-IsCopied}
use knos.Routines.Fill.{IsFilled, memset-IsFilled}
use knos.Routines.Scan.{IsString, strlen-IsString}

-- The byte at `x` is `x` from 3 on.
abbrev steps : Bytes
steps x = if ltb x 3 then 0 else x % 256

memcpy-IsCopied_example : IsCopied 2 5 11 steps (memcpy 2 5 11 steps)
memcpy-IsCopied_example =
    memcpy-IsCopied 2 5 11 steps (inl (omega arith)) (omega arith) (omega arith)

memset-IsFilled_example : IsFilled 4 (0x1FE % 2 ^ 8) 13 steps (memset 4 0x1FE 13 steps)
memset-IsFilled_example = memset-IsFilled 4 0x1FE 13 steps (omega arith)

-- The bytes 253 to 255 stand before the 0 at 256.
steps-IsString : IsString steps 253 3
steps-IsString = record { ended = refl; before = below }
  where
    below : (i : ℕ) → i < 3 → ¬ (steps (253 + i) ≡ 0)
    below i lt e = ground arith

strlen-IsString_example :
    ((3 < 2 ^ 31) × (strlen 253 steps ≡ pos 3))
    ⊎ ((2 ^ 31 ≤ 3) × (strlen 253 steps ≡ negsuc (2 ^ 32 - 1 - 3)))
strlen-IsString_example = strlen-IsString steps 253 3 (omega arith) (omega arith) steps-IsString
