-- ===== src/Printk/Room.antt =====
-- The writers of kernel/printk.c stay inside their buffer: what is written and what is left add up.
use knos.Base.{
  ℕ, zero, suc, ◌+◌, ◌≤◌, ◌≡◌, Bool, true, false, not, ◌&&◌, ◌||◌, Option, List, [], ◌∷◌, inl, inr,
  Bool-cases, arith, length, length-append, ltb, ◌==◌, if◌then◌else◌,
}
use knos.Base.Int.{ℤ}
use knos.Printk.Buffer.{Buffer, push, put, fill, copy}
use knos.Printk.Number.{Flags, sign_text, put_prefix, digit_text, write_number, number}

-- The buffer is one of `size` bytes.
abbrev pub IsWithin : ℕ → Buffer → Type 0
IsWithin size b = length b.text + b.room ≡ size

module _ (size : ℕ) where
  push-IsWithin : (c : ℕ) (b : Buffer) → 1 ≤ b.room → IsWithin size b → IsWithin size (push c b)
  unfolding push
  push-IsWithin c b some_room h = omega (arith, length-append b.text (c ∷ []))

  pub put-IsWithin : (c : ℕ) (b : Buffer) → IsWithin size b → IsWithin size (put c b)
  unfolding put
  put-IsWithin c b h = elim (Bool-cases (b.room == 0)) [
    | inl e ↦ rw (e, put) h
    | inr e ↦ rw (e, put) (push-IsWithin c b (ground arith) h)
  ]

  pub fill-IsWithin : (n c : ℕ) (b : Buffer) → IsWithin size b → IsWithin size (fill n c b)
  unfolding fill
  fill-IsWithin zero c b h = h
  fill-IsWithin (suc n) c b h = elim (Bool-cases (b.room == 0)) [
    | inl e ↦ rw (e, fill) h
    | inr e ↦ rw (e, fill) (fill-IsWithin n c (push c b) (push-IsWithin c b (ground arith) h))
  ]

  pub copy-IsWithin : (cs : List ℕ) (b : Buffer) → IsWithin size b → IsWithin size (copy cs b)
  unfolding copy
  copy-IsWithin [] b h = h
  copy-IsWithin (c ∷ cs) b h = elim (Bool-cases (b.room == 0)) [
    | inl e ↦ rw (e, copy) h
    | inr e ↦ rw (e, copy) (copy-IsWithin cs (push c b) (push-IsWithin c b (ground arith) h))
  ]

  pub if-IsWithin :
      (test : Bool) (b c : Buffer)
      → IsWithin size b
      → IsWithin size c
      → IsWithin size (if test then b else c)
  if-IsWithin true b c h k = h
  if-IsWithin false b c h k = k

  put_prefix-IsWithin :
      (flags : Flags) (base : ℕ) (b : Buffer)
      → IsWithin size b
      → IsWithin size (put_prefix flags base b)
  unfolding put_prefix push
  put_prefix-IsWithin flags base b h =
      grind (arith, length-append, length-append b.text (b'0' ∷ []))

  write_number-IsWithin :
      (flags : Flags) (base : ℕ) (sign : Option ℕ) (ds : List ℕ) (pad zeros : ℕ) (b : Buffer)
      → IsWithin size b
      → IsWithin size (write_number flags base sign ds pad zeros b)
  unfolding write_number
  write_number-IsWithin flags base sign ds pad zeros b h =
      let start =
        if-IsWithin (not flags.zeropad && not flags.left) _ b (fill-IsWithin pad b' ' b h) h in
      let prefix = put_prefix-IsWithin flags base _ (copy-IsWithin (sign_text sign) _ start) in
      let inner =
        if-IsWithin (not flags.left && flags.zeropad) _ _ (fill-IsWithin pad b'0' _ prefix)
          prefix in
      let body = copy-IsWithin (digit_text flags ds) _ (fill-IsWithin zeros b'0' _ inner) in
      if-IsWithin flags.left _ _ (fill-IsWithin pad b' ' _ body) body

  -- `number` neither leaves the buffer nor loses count.
  pub number-IsWithin :
      (b : Buffer) (num base : ℕ) (width prec : ℤ) (flags : Flags) (negative : Bool)
      → IsWithin size b
      → IsWithin size (number b num base width prec flags negative)
  unfolding number
  number-IsWithin b num base width prec flags negative h =
      if-IsWithin (ltb base 2 || ltb 36 base) b _ h (write_number-IsWithin flags base _ _ _ _ b h)
