-- ===== src/Printk/Format.antt =====
-- One conversion of a format of kernel/printk.c, read off the text behind its `%`.
pub mod Rest
use knos.Base.{
  ℕ, zero, suc, ◌+◌, ◌-◌, ◌*◌, ◌/◌, ◌%◌, ◌^◌, Bool, true, false, ◌&&◌, Option, none, some, List, [],
  ◌∷◌, Result, ok, fault, ◌>>=◌, ltb, leb, ◌==◌, if◌then◌else◌,
}
use knos.Base.Word.{u32}
use knos.Base.Int.{ℤ, pos, negsuc, is_negative, magnitude}
use knos.Printk.Number.{Flags}

-- The low `w` bits of a word, read as a signed number.
unfoldable pub signed : ℕ → ℕ → ℤ
signed w n =
    let low = n % 2 ^ w in if ltb low (2 ^ (w - 1)) then pos low else negsuc (2 ^ w - 1 - low)

-- `va_arg`: the next argument, as the word it was passed in. Reading beyond the last is undefined.
abbrev pub va_arg : List ℕ → Result (ℕ × List ℕ)
va_arg [] = fault
va_arg (a ∷ args) = ok (a, args)

-- `*fmt`, which is 0 at the end of the text.
abbrev pub current : List ℕ → ℕ
current [] = 0
current (c ∷ fmt) = c

abbrev pub next : List ℕ → List ℕ
next [] = []
next (c ∷ fmt) = fmt

abbrev pub is_digit : ℕ → Bool
is_digit c = leb b'0' c && leb c b'9'

abbrev pub no_flags : Flags
no_flags = record {
  zeropad = false;
  sign = false;
  plus = false;
  space = false;
  left = false;
  special = false;
  small = false;
}

-- The flag that a character sets.
unfoldable pub add_flag : Flags → ℕ → Option Flags
add_flag flags c =
    if c == b'-'
    then some (record flags { left = true })
    else if c == b'+'
    then some (record flags { plus = true })
    else if c == b' '
    then some (record flags { space = true })
    else if c == b'#'
    then some (record flags { special = true })
    else if c == b'0'
    then some (record flags { zeropad = true })
    else none

unfoldable pub parse_flags : List ℕ → Flags → Flags × List ℕ
parse_flags [] flags = (flags, [])
parse_flags (c ∷ fmt) flags = elim (add_flag flags c) [
  | none ↦ (flags, c ∷ fmt)
  | some more ↦ parse_flags fmt more
]

-- `while (is_digit(*fmt))`, from the value so far.
unfoldable pub parse_digits : List ℕ → ℕ → ℕ × List ℕ
parse_digits [] value = (value, [])
parse_digits (c ∷ fmt) value = elim (is_digit c) [
  | true ↦ parse_digits fmt (value * 10 + (c - b'0'))
  | false ↦ (value, c ∷ fmt)
]

-- A value that an int32_t cannot hold is undefined.
abbrev pub int32 : ℕ → Result ℤ
int32 n = if ltb n (2 ^ 31) then ok (pos n) else fault

pub record Parsed : Type 0 where
  pub flags : Flags
  pub width : ℤ
  pub precision : ℤ
  pub fmt : List ℕ
  pub args : List ℕ

abbrev pub starting : Flags → List ℕ → List ℕ → Parsed
starting flags fmt args = record {
  flags = flags;
  width = negsuc 0;
  precision = negsuc 0;
  fmt = fmt;
  args = args;
}

-- A negative width from `*` is a positive one with LEFT; the least int32_t has no negation.
abbrev pub star_width : Parsed → ℤ → Result Parsed
star_width p (pos n) = ok (record p { width = pos n })
star_width p (negsuc n) =
    int32 (suc n) >>= λ w. ok (record p { width = w; flags = record p.flags { left = true } })

unfoldable pub parse_width : Flags → List ℕ → List ℕ → Result Parsed
parse_width flags fmt args =
    let p = starting flags fmt args in
    if current fmt == b'*'
    then (va_arg args >>= λ a. star_width (starting flags (next fmt) a.1) (signed 32 a.0))
    else if is_digit (current fmt)
    then (let d = parse_digits fmt 0 in int32 d.0 >>= λ w. ok (record p { width = w; fmt = d.1 }))
    else ok p

abbrev pub at_least_0 : ℤ → ℤ
at_least_0 (pos n) = pos n
at_least_0 (negsuc n) = pos 0

-- Behind the dot.
unfoldable pub parse_after_dot : Parsed → Result Parsed
parse_after_dot p =
    if current p.fmt == b'*'
    then (va_arg p.args >>= λ a.
        ok (record p { precision = at_least_0 (signed 32 a.0); fmt = next p.fmt; args = a.1 }))
    else if is_digit (current p.fmt)
    then (let d = parse_digits p.fmt 0 in
        int32 d.0 >>= λ n. ok (record p { precision = n; fmt = d.1 }))
    else ok (record p { precision = pos 0 })

unfoldable pub parse_precision : Parsed → Result Parsed
parse_precision p =
    if current p.fmt == b'.' then parse_after_dot (record p { fmt = next p.fmt }) else ok p

-- `qualifier`: 0, 'h', 'l', '2' for `ll`, or 'L'.
pub data Qualifier : Type 0 where
  plain short long long_long big : Qualifier

unfoldable pub parse_qualifier : List ℕ → Qualifier × List ℕ
parse_qualifier fmt =
    if current fmt == b'h'
    then (short, next fmt)
    else if current fmt == b'l'
    then (if current (next fmt) == b'l' then (long_long, next (next fmt)) else (long, next fmt))
    else if current fmt == b'L'
    then (big, next fmt)
    else (plain, fmt)

-- The value of an unsigned and of a signed integer argument.
abbrev pub unsigned_value : Qualifier → ℕ → ℕ
unsigned_value long a = a
unsigned_value long_long a = a
unsigned_value short a = a % 2 ^ 16
unsigned_value plain a = u32 a
unsigned_value big a = u32 a

abbrev pub signed_value : Qualifier → ℕ → ℤ
signed_value long a = signed 64 a
signed_value long_long a = signed 64 a
signed_value short a = signed 16 a
signed_value plain a = signed 32 a
signed_value big a = signed 32 a
