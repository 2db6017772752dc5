-- ===== src/Routines/Copy.antt =====
-- `memcpy` of kernel/lib.h copies.
use mathlib.Core.Path.{subst}
use knos.Base.{
  ℕ, zero, suc, ◌+◌, ◌-◌, ◌*◌, ◌/◌, ◌%◌, ◌^◌, ◌≤◌, ◌<◌, ◌≡◌, refl, ap, ◌∙◌, ◌⊎◌, inl, inr, true,
  false, Bool-cases, arith, ◌==◌, ==→eq, if◌then◌else◌,
}
use knos.Routines.{Bytes, in_run, Copying, movs, rep_movsq, movs_if, memcpy}

-- The memory `new` is `old` but for the `n` bytes at `dest`, which are those that were at `src`.
abbrev pub IsCopied : ℕ → ℕ → ℕ → Bytes → Bytes → Type 0
IsCopied dest src n old new =
    (x : ℕ) → new x ≡ (if in_run dest n x then old (src + (x - dest)) else old x)

-- `k` bytes are done.
record IsAt (dest src k : ℕ) (old : Bytes) (s : Copying) : Type 0 where
  at_dest : s.rdi ≡ dest + k
  at_src : s.rsi ≡ src + k
  done : IsCopied dest src k old s.memory

-- A copy that goes up does not read what it has written.
abbrev pub IsForward : ℕ → ℕ → ℕ → Type 0
IsForward dest src n = (dest ≤ src) ⊎ (src + n ≤ dest)

module _ (dest src n : ℕ) (old : Bytes) (forward : IsForward dest src n)
    (dest_fits : dest + n < 2 ^ 64) (src_fits : src + n < 2 ^ 64) where
  -- What is read has not been written yet.
  unread :
      (k : ℕ) (s : Copying) (x : ℕ)
      → IsAt dest src k old s
      → dest + k ≤ x
      → x < dest + n
      → s.memory (src + (x - dest)) ≡ old (src + (x - dest))
  unread k s x h lo hi =
      let y = src + (x - dest) in
      let outside : in_run dest k y ≡ false = apart k x lo hi in h.done y ∙ rw outside refl
    where
      apart : (k x : ℕ) → dest + k ≤ x → x < dest + n → in_run dest k (src + (x - dest)) ≡ false
      apart k x lo hi = elim forward [ inl up ↦ ground arith | inr below ↦ ground arith ]

  byte-movs :
      (k bytes : ℕ) (s : Copying) (x : ℕ)
      → k + bytes ≤ n
      → IsAt dest src k old s
      → (movs bytes s).memory x
        ≡ (if in_run dest (k + bytes) x then old (src + (x - dest)) else old x)
  unfolding movs
  byte-movs k bytes s x le h = elim (Bool-cases (in_run (dest + k) bytes x)) [
    | inl now ↦
        let inside : in_run dest (k + bytes) x ≡ true = ground arith in
        let place : src + k + (x - (dest + k)) ≡ src + (x - dest) = ground arith in
        rw (h.at_dest, h.at_src, now, inside, place) (unread k s x h (ground arith) (ground arith))
    | inr later ↦
        let same : in_run dest k x ≡ in_run dest (k + bytes) x = ground arith in
        rw (h.at_dest, later)
          (h.done x ∙ ap (λ t. if t then old (src + (x - dest)) else old x) same)
  ]

  movs-IsAt :
      (k bytes : ℕ) (s : Copying)
      → k + bytes ≤ n
      → IsAt dest src k old s
      → IsAt dest src (k + bytes) old (movs bytes s)
  unfolding movs
  movs-IsAt k bytes s le h = record {
    at_dest = omega (arith, h.at_dest);
    at_src = omega (arith, h.at_src);
    done = λ x. byte-movs k bytes s x le h;
  }

  rep_movsq-IsAt :
      (rcx k : ℕ) (s : Copying)
      → k + 8 * rcx ≤ n
      → IsAt dest src k old s
      → IsAt dest src (k + 8 * rcx) old (rep_movsq rcx s)
  unfolding rep_movsq
  rep_movsq-IsAt zero k s le h = subst (λ j. IsAt dest src j old s) (omega arith) h
  rep_movsq-IsAt (suc rcx) k s le h =
      subst (λ j. IsAt dest src j old (rep_movsq rcx (movs 8 s))) (omega arith)
        (rep_movsq-IsAt rcx (k + 8) (movs 8 s) (omega arith) (movs-IsAt k 8 s (omega arith) h))

  movs_if-IsAt :
      (k bytes : ℕ) (s : Copying)
      → k + n / bytes % 2 * bytes ≤ n
      → IsAt dest src k old s
      → IsAt dest src (k + n / bytes % 2 * bytes) old (movs_if bytes n s)
  unfolding movs_if
  movs_if-IsAt k bytes s le h = elim (Bool-cases (n / bytes % 2 == 0)) [
    | inl clear ↦
        let none_more : n / bytes % 2 ≡ 0 = ==→eq _ 0 clear in
        rw (clear, none_more) (subst (λ j. IsAt dest src j old s) (omega arith) h)
    | inr one ↦
        let some_more : n / bytes % 2 ≡ 1 = ground arith in
        rw (one, some_more)
          (subst (λ j. IsAt dest src j old (movs bytes s)) (omega arith)
            (movs-IsAt k bytes s (omega (arith, ap (λ d. d * bytes) some_more)) h))
  ]

  -- Where the end of neither run leaves the address space, and the copy does not run up into its own
  -- source, `memcpy` leaves in the `n` bytes at `dest` what was in the `n` bytes at `src`, and nothing
  -- else is changed.
  pub memcpy-IsCopied : IsCopied dest src n old (memcpy dest src n old)
  unfolding memcpy
  memcpy-IsCopied =
      let s : Copying = record { rdi = dest; rsi = src; memory = old } in
      let start : IsAt dest src 0 old s = record {
        at_dest = omega arith;
        at_src = omega arith;
        done = start_bytes;
      } in
      let k8 = 0 + 8 * (n / 8) in
      let h8 = rep_movsq-IsAt (n / 8) 0 s (omega arith) start in
      let k4 = k8 + n / 4 % 2 * 4 in
      let h4 = movs_if-IsAt k8 4 (rep_movsq (n / 8) s) (omega arith) h8 in
      let k2 = k4 + n / 2 % 2 * 2 in
      let h2 = movs_if-IsAt k4 2 _ (omega arith) h4 in
      let h1 = movs_if-IsAt k2 1 _ (omega arith) h2 in
      let all : k2 + n / 1 % 2 * 1 ≡ n = omega arith in
      subst (λ k. IsCopied dest src k old (memcpy dest src n old)) all h1.done
    where
      start_bytes : IsCopied dest src 0 old old
      start_bytes x = let nothing : in_run dest 0 x ≡ false = ground arith in rw nothing refl
