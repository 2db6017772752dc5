-- ===== src/Printk/Vsnprintf/Strings.antt =====
-- How much `%s` of kernel/printk.c writes at most.
use knos.Base.{
  ok, leb, min, take, ℕ, zero, suc, ◌+◌, ◌-◌, ◌%◌, ◌^◌, ◌≤◌, ◌<◌, ◌≡◌, refl, true, false,
  Bool-cases, inl, inr, Option, none, some, List, [], ◌∷◌, arith, length, ltb, ◌==◌, max,
}
use knos.Base.Word.{sub64}
use knos.Base.Int.{ℤ, pos, negsuc, rounds}
use knos.Printk.Buffer.{Buffer, fill, copy}
use knos.Printk.Growth.{Grows, fill-Grows, copy-Grows}
use knos.Printk.Number.{Flags}
use knos.Printk.Format.{signed}
use knos.Printk.Vsnprintf.{cut, string_size, string_padding, string_of, print_string}
use knos.Printk.Vsnprintf.Demand.{is_width}

-- No string in memory is longer than `longest`.
abbrev pub AreShort : (ℕ → List ℕ) → Option ℕ → Type 0
AreShort string_at none = 0 ≤ 0
AreShort string_at (some n) = (a : ℕ) → length (string_at a) ≤ n

pub length-string_of :
    (string_at : ℕ → List ℕ) (n a : ℕ)
    → AreShort string_at (some n)
    → length (string_of string_at a) ≤ max n 6
length-string_of string_at n a brief = elim (Bool-cases (a == 0)) [
  | inl null ↦ rw null (omega arith)
  | inr other ↦ rw other (omega (arith, brief a))
]

length-take : (n : ℕ) (cs : List ℕ) → length (take n cs) ≤ length cs
length-take zero cs = omega arith
length-take (suc n) [] = omega arith
length-take (suc n) (c ∷ cs) = omega (arith, length-take n cs)

-- The cut to an int32_t gains nothing, and what does not fit an int32_t is no padding.
signed-bound : (n : ℕ) → rounds (signed 32 n) ≤ n
unfolding signed
signed-bound n = elim (Bool-cases (ltb (n % 2 ^ 32) (2 ^ 31))) [
  | inl low ↦ rw low (omega arith)
  | inr high ↦ rw high (omega arith)
]

signed_high : (n : ℕ) → ltb (n % 2 ^ 32) (2 ^ 31) ≡ false → rounds (signed 32 n) ≡ 0
unfolding signed
signed_high n high = rw high refl

string_padding-bound :
    (width : ℤ) (len : ℕ)
    → is_width width ≡ true
    → len < 2 ^ 31
    → string_padding width len ≤ rounds width
string_padding-bound (pos w) len fixed brief = elim (Bool-cases (ltb len w)) [
  | inl more ↦
      let less : sub64 w len ≤ w = ground arith in
      rw more (omega (arith, signed-bound (sub64 w len), less))
  | inr full ↦ rw full (omega arith)
]
string_padding-bound (negsuc zero) len fixed brief =
    let more : ltb len (2 ^ 64 - 1) ≡ true = ground arith in
    let high : ltb (sub64 (2 ^ 64 - 1) len % 2 ^ 32) (2 ^ 31) ≡ false = ground arith in
    rw more (omega (arith, signed_high (sub64 (2 ^ 64 - 1) len) high))
string_padding-bound (negsuc (suc n)) len fixed brief = absurd (ground arith)

cut-bound : (precision : ℤ) (len : ℕ) → cut precision len ≤ len
cut-bound (pos p) len = omega arith
cut-bound (negsuc p) len = omega arith

-- A short string has its length.
string_size_lem : (cs : List ℕ) → length cs < 2 ^ 31 → string_size cs ≡ length cs
unfolding signed
string_size_lem cs brief =
    let same : min (length cs) (2 ^ 32 - 2) % 2 ^ 32 ≡ length cs = omega arith in
    let low : ltb (length cs) (2 ^ 31) ≡ true = ground arith in rw (same, low) refl

pub print_string-Grows :
    (flags : Flags) (width precision : ℤ) (cs : List ℕ) (n : ℕ) (b : Buffer)
    → is_width width ≡ true
    → length cs ≤ n
    → n < 2 ^ 31
    → (c : Buffer) × (print_string flags width precision cs b ≡ ok c) × Grows (rounds width + n) b c
unfolding print_string
print_string-Grows flags width precision cs n b fixed brief small =
    let len = cut precision (string_size cs) in
    let k = string_padding width len in
    let size = string_size_lem cs (omega arith) in
    let short : len ≤ n = omega (arith, cut-bound precision (string_size cs), size) in
    let bound = string_padding-bound width len fixed (omega arith) in
    let inside : leb (2 ^ 63) len ≡ false = ground arith in
    let text = length-take len cs in
    elim (Bool-cases flags.left) [
      | inl e ↦ (
        fill k b' ' (copy (take len cs) b),
        rw (inside, e) refl,
        omega (
          arith,
          bound,
          text,
          copy-Grows (take len cs) b,
          fill-Grows k b' ' (copy (take len cs) b),
        ),
      )
      | inr e ↦ (
        copy (take len cs) (fill k b' ' b),
        rw (inside, e) refl,
        omega (arith, bound, text, fill-Grows k b' ' b, copy-Grows (take len cs) (fill k b' ' b)),
      )
    ]
