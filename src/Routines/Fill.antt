-- ===== src/Routines/Fill.antt =====
-- `memset` of kernel/lib.h fills.
use mathlib.Core.Path.{subst}
use knos.Base.{
  ℕ, zero, suc, ◌+◌, ◌-◌, ◌*◌, ◌/◌, ◌%◌, ◌^◌, ◌≤◌, ◌<◌, ◌≡◌, refl, ap, ◌∙◌, inl, inr, true, false,
  Bool-cases, arith, if◌then◌else◌,
}
use knos.Routines.{Bytes, in_run, Filling, stos, rep_stos, repeated_byte, memset}

-- The memory `new` is `old` but for the `n` bytes at `dest`, which are `c`.
abbrev pub IsFilled : ℕ → ℕ → ℕ → Bytes → Bytes → Type 0
IsFilled dest c n old new = (x : ℕ) → new x ≡ (if in_run dest n x then c else old x)

-- Each of the 8 bytes of `c64` is the byte.
repeated-byte : (c j : ℕ) → j < 8 → repeated_byte c / 256 ^ j % 256 ≡ c % 2 ^ 8
repeated-byte c zero h = omega arith
repeated-byte c (suc zero) h = omega arith
repeated-byte c (suc (suc zero)) h = omega arith
repeated-byte c (suc (suc (suc zero))) h = omega arith
repeated-byte c (suc (suc (suc (suc zero)))) h = omega arith
repeated-byte c (suc (suc (suc (suc (suc zero))))) h = omega arith
repeated-byte c (suc (suc (suc (suc (suc (suc zero)))))) h = omega arith
repeated-byte c (suc (suc (suc (suc (suc (suc (suc zero))))))) h = omega arith
repeated-byte c (suc (suc (suc (suc (suc (suc (suc (suc j)))))))) h = absurd (omega arith)

-- `k` bytes are done.
record IsAt (dest c k : ℕ) (old : Bytes) (s : Filling) : Type 0 where
  at_dest : s.rdi ≡ dest + k
  done : IsFilled dest (c % 2 ^ 8) k old s.memory

module _ (dest c n : ℕ) (old : Bytes) (fits : dest + n < 2 ^ 64) where
  byte-stos :
      (k bytes : ℕ) (s : Filling) (x : ℕ)
      → bytes ≤ 8
      → IsAt dest c k old s
      → (stos bytes (repeated_byte c) s).memory x
        ≡ (if in_run dest (k + bytes) x then c % 2 ^ 8 else old x)
  unfolding stos
  byte-stos k bytes s x few h = elim (Bool-cases (in_run (dest + k) bytes x)) [
    | inl now ↦
        let inside : in_run dest (k + bytes) x ≡ true = ground arith in
        rw (h.at_dest, now, inside) (repeated-byte c (x - (dest + k)) (ground arith))
    | inr later ↦
        let same : in_run dest k x ≡ in_run dest (k + bytes) x = ground arith in
        rw (h.at_dest, later) (h.done x ∙ ap (λ t. if t then c % 2 ^ 8 else old x) same)
  ]

  stos-IsAt :
      (k bytes : ℕ) (s : Filling)
      → bytes ≤ 8
      → k + bytes ≤ n
      → IsAt dest c k old s
      → IsAt dest c (k + bytes) old (stos bytes (repeated_byte c) s)
  unfolding stos
  stos-IsAt k bytes s few le h = record {
    at_dest = omega (arith, h.at_dest);
    done = λ x. byte-stos k bytes s x few h;
  }

  rep_stos-IsAt :
      (bytes rcx k : ℕ) (s : Filling)
      → bytes ≤ 8
      → k + rcx * bytes ≤ n
      → IsAt dest c k old s
      → IsAt dest c (k + rcx * bytes) old (rep_stos bytes (repeated_byte c) rcx s)
  unfolding rep_stos
  rep_stos-IsAt bytes zero k s few le h = subst (λ j. IsAt dest c j old s) (omega arith) h
  rep_stos-IsAt bytes (suc rcx) k s few le h =
      let next = stos bytes (repeated_byte c) s in
      subst (λ j. IsAt dest c j old (rep_stos bytes (repeated_byte c) rcx next)) (omega arith)
        (rep_stos-IsAt bytes rcx (k + bytes) next few (omega arith)
          (stos-IsAt k bytes s few (omega arith) h))

  -- Where the run does not leave the address space, `memset` leaves the low byte of `c` in the `n`
  -- bytes at `dest`, and nothing else is changed.
  pub memset-IsFilled : IsFilled dest (c % 2 ^ 8) n old (memset dest c n old)
  unfolding memset
  memset-IsFilled =
      let s : Filling = record { rdi = dest; memory = old } in
      let start : IsAt dest c 0 old s = record { at_dest = omega arith; done = start_bytes } in
      let h8 = rep_stos-IsAt 8 (n / 8) 0 s (omega arith) (omega arith) start in
      let h1 = rep_stos-IsAt 1 (n % 8) (0 + n / 8 * 8) _ (omega arith) (omega arith) h8 in
      let all : 0 + n / 8 * 8 + n % 8 * 1 ≡ n = omega arith in
      subst (λ k. IsFilled dest (c % 2 ^ 8) k old (memset dest c n old)) all h1.done
    where
      start_bytes : IsFilled dest (c % 2 ^ 8) 0 old old
      start_bytes x = let nothing : in_run dest 0 x ≡ false = ground arith in rw nothing refl
