-- ===== src/Printk/Format/Rest.antt =====
-- Reading a conversion of a format only takes characters off it.
use knos.Base.{
  ℕ, suc, ◌+◌, ◌-◌, ◌*◌, ◌≤◌, ◌^◌, ◌≡◌, refl, inl, inr, Bool-cases, Option-cases, List, [], ◌∷◌,
  Result, ◌>>=◌, Ends, >>=-Ends, if-Ends, arith, length, ltb, ◌==◌,
}
use knos.Base.Int.{ℤ, pos, negsuc}
use knos.Printk.Number.{Flags}
use knos.Printk.Format.{
  signed, va_arg, current, next, is_digit, add_flag, parse_flags, parse_digits, int32, Parsed,
  star_width, starting, parse_width, parse_after_dot, parse_precision, parse_qualifier,
}

pub length-next : (fmt : List ℕ) → length (next fmt) ≤ length fmt
length-next [] = omega arith
length-next (c ∷ fmt) = omega arith

pub length-parse_flags :
    (fmt : List ℕ) (flags : Flags) → length (parse_flags fmt flags).1 ≤ length fmt
unfolding parse_flags
length-parse_flags [] flags = omega arith
length-parse_flags (c ∷ fmt) flags = elim (Option-cases (add_flag flags c)) [
  | inl e ↦ rw (e, parse_flags) (omega arith)
  | inr (more, e) ↦ rw (e, parse_flags) (omega (arith, length-parse_flags fmt more))
]

length-parse_digits : (fmt : List ℕ) (value : ℕ) → length (parse_digits fmt value).1 ≤ length fmt
unfolding parse_digits
length-parse_digits [] value = omega arith
length-parse_digits (c ∷ fmt) value = elim (Bool-cases (is_digit c)) [
  | inl e ↦ rw (e, parse_digits) (omega (arith, length-parse_digits fmt (value * 10 + (c - b'0'))))
  | inr e ↦ rw (e, parse_digits) (omega arith)
]

pub length-parse_qualifier : (fmt : List ℕ) → length (parse_qualifier fmt).1 ≤ length fmt
unfolding parse_qualifier
length-parse_qualifier fmt = ground (arith, length-next fmt, length-next (next fmt))

-- At most `n` characters are left.
abbrev pub IsShort : ℕ → Parsed → Type 0
IsShort n p = length p.fmt ≤ n

int32-Ends : (n : ℕ) → Ends (λ w. w ≡ pos n) (int32 n)
int32-Ends n = elim (Bool-cases (ltb n (2 ^ 31))) [
  | inl e ↦ rw e (inr (pos n, refl, refl))
  | inr e ↦ rw e (inl refl)
]

-- An int32_t goes into the rest if it exists.
after_int32 :
    (n k : ℕ) (rest : ℤ → Result Parsed)
    → ((w : ℤ) → Ends (IsShort k) (rest w))
    → Ends (IsShort k) (int32 n >>= rest)
after_int32 n k rest h = >>=-Ends _ (IsShort k) (int32 n) rest (int32-Ends n) (λ w e. h w)

pub after_va_arg {ℓ κ} :
    {A : Type ℓ} (P : A → Type κ) (args : List ℕ) (rest : ℕ × List ℕ → Result A)
    → ((a : ℕ × List ℕ) → Ends P (rest a))
    → Ends P (va_arg args >>= rest)
after_va_arg P [] rest h = inl refl
after_va_arg P (a ∷ args) rest h = h (a, args)

star_width-Ends : (n : ℕ) (p : Parsed) (w : ℤ) → IsShort n p → Ends (IsShort n) (star_width p w)
star_width-Ends n p (pos w) h = inr (_, refl, h)
star_width-Ends n p (negsuc w) h = after_int32 (suc w) n _ (λ v. inr (_, refl, h))

pub parse_width-Ends :
    (flags : Flags) (fmt args : List ℕ) → Ends (IsShort (length fmt)) (parse_width flags fmt args)
unfolding parse_width
parse_width-Ends flags fmt args =
    if-Ends (IsShort _) (current fmt == b'*') _ _
      (after_va_arg (IsShort _) args _
        (λ a. star_width-Ends _ (starting flags (next fmt) a.1) (signed 32 a.0) (length-next fmt)))
      (if-Ends (IsShort _) (is_digit (current fmt)) _ _
        (after_int32 _ _ _ (λ w. inr (_, refl, length-parse_digits fmt 0)))
        (inr (_, refl, omega arith)))

parse_after_dot-Ends : (p : Parsed) → Ends (IsShort (length p.fmt)) (parse_after_dot p)
unfolding parse_after_dot
parse_after_dot-Ends p =
    if-Ends (IsShort _) (current p.fmt == b'*') _ _
      (after_va_arg (IsShort _) p.args _ (λ a. inr (_, refl, length-next p.fmt)))
      (if-Ends (IsShort _) (is_digit (current p.fmt)) _ _
        (after_int32 _ _ _ (λ w. inr (_, refl, length-parse_digits p.fmt 0)))
        (inr (_, refl, omega arith)))

shorter : (m n : ℕ) (r : Result Parsed) → m ≤ n → Ends (IsShort m) r → Ends (IsShort n) r
shorter m n r le (inl e) = inl e
shorter m n r le (inr (p, e, h)) = inr (p, e, omega arith)

pub parse_precision-Ends : (p : Parsed) → Ends (IsShort (length p.fmt)) (parse_precision p)
unfolding parse_precision
parse_precision-Ends p =
    if-Ends (IsShort _) (current p.fmt == b'.') _ _
      (shorter _ _ _ (length-next p.fmt) (parse_after_dot-Ends (record p { fmt = next p.fmt })))
      (inr (_, refl, omega arith))
