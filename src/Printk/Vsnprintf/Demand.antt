-- ===== src/Printk/Vsnprintf/Demand.antt =====
-- What a format asks of a call of `vsnprintf` of kernel/printk.c, read off the format alone.
use mathlib.Core.Path.{subst}
use knos.Base.{
  Option, none, some, ltb, ◌^◌, ℕ, zero, suc, ◌+◌, ◌-◌, ◌≡◌, refl, Bool, true, false, ◌&&◌, ◌||◌,
  List, [], ◌∷◌, ok, fault, halted, no_fuel, ok-injective, Result, ◌>>=◌, ◌==◌, if◌then◌else◌, max,
}
use knos.Base.Int.{ℤ, pos, negsuc, rounds}
use knos.Printk.Number.{Flags}
use knos.Printk.Format.{
  current, next, is_digit, no_flags, int32, starting, parse_digits, parse_flags, Parsed,
  parse_width, parse_after_dot, parse_precision, Qualifier, plain, short, long, long_long, big,
  parse_qualifier,
}

-- The number of arguments that are taken, and a number of characters that is never exceeded.
pub record Demand : Type 0 where
  pub arguments : ℕ
  pub characters : ℕ

abbrev pub no_demand : Demand
no_demand = record { arguments = 0; characters = 0 }

abbrev pub both : Demand → Demand → Demand
both d e = record {
  arguments = d.arguments + e.arguments;
  characters = d.characters + e.characters;
}

-- A field of a number.
abbrev pub field_size : ℤ → ℤ → ℕ
field_size width precision = rounds width + 3 + max (rounds precision) 72

-- The qualifiers whose numbers have 32 bits or fewer, and so can be negated.
abbrev pub is_narrow : Qualifier → Bool
is_narrow plain = true
is_narrow short = true
is_narrow big = true
is_narrow long = false
is_narrow long_long = false

-- The widths that `%s` pads to as they say: -1 stands for none.
abbrev pub is_width : ℤ → Bool
is_width (pos w) = true
is_width (negsuc n) = n == 0

-- `%s`, where no string is longer than `longest`; `none` refuses it. For a null pointer six characters
-- are printed.
abbrev pub string_demand : Option ℕ → ℤ → Result Demand
string_demand none width = fault
string_demand (some n) width =
    if ltb n (2 ^ 31) && is_width width
    then ok (record { arguments = 1; characters = rounds width + max n 6 })
    else fault

module _ (longest : Option ℕ) where
  -- The conversion `c`. What may fault, or store, is refused, and so is a conversion that does not exist.
  unfoldable pub conversion_demand : Parsed → Qualifier → ℕ → Result Demand
  conversion_demand p q c =
      if c == b'c'
      then ok (record { arguments = 1; characters = rounds p.width - 1 + 1 })
      else if c == b's'
      then string_demand longest p.width
      else if c == b'p'
      then ok (record { arguments = 1; characters = field_size (pos 16) p.precision })
      else if (c == b'd' || c == b'i') && is_narrow q
      then ok (record { arguments = 1; characters = field_size p.width p.precision })
      else if c == b'u' || (c == b'o' || (c == b'x' || c == b'X'))
      then ok (record { arguments = 1; characters = field_size p.width p.precision })
      else if c == b'%'
      then ok (record { arguments = 0; characters = 1 })
      else fault

  -- The text behind a `%`. A width or a precision that is an argument is refused: there is none to read.
  unfoldable pub specification_demand : List ℕ → Result (List ℕ × Demand)
  specification_demand fmt =
      let f = parse_flags fmt no_flags in
      parse_width f.0 f.1 [] >>= λ w. parse_precision w >>= λ p.
      let q = parse_qualifier p.fmt in
      conversion_demand p q.0 (current q.1) >>= λ d. ok (next q.1, d)

  unfoldable pub character_demand : ℕ → List ℕ → Result (List ℕ × Demand)
  character_demand c fmt =
      if c == b'%'
      then specification_demand fmt
      else ok (fmt, record { arguments = 0; characters = 1 })

  unfoldable pub demand : ℕ → List ℕ → Result Demand
  demand fuel [] = ok no_demand
  demand zero (c ∷ fmt) = fault
  demand (suc fuel) (c ∷ fmt) =
      character_demand c fmt >>= λ r. demand fuel r.0 >>= λ d. ok (both r.1 d)

-- A width or a precision that stands in the format does not depend on the arguments.
abbrev pub with_args : Parsed → List ℕ → Parsed
with_args p args = record p { args = args }

-- What is read with no arguments left is read with any.
abbrev pub IsFixed : (List ℕ → Result Parsed) → Type 0
IsFixed read =
    (w : Parsed)
    → read [] ≡ ok w
    → (w.args ≡ []) × ((args : List ℕ) → read args ≡ ok (with_args w args))

if-IsFixed :
    (test : Bool) (a b : List ℕ → Result Parsed)
    → IsFixed a
    → IsFixed b
    → IsFixed (λ args. if test then a args else b args)
if-IsFixed true a b h k = h
if-IsFixed false a b h k = k

ok-IsFixed : (p : Parsed) → IsFixed (λ args. ok (with_args p args))
ok-IsFixed p w e =
    subst (λ x. (x.args ≡ []) × ((args : List ℕ) → ok (with_args p args) ≡ ok (with_args x args)))
      (ok-injective e) (refl, λ args. refl)

fault-IsFixed : (read : List ℕ → Result Parsed) → read [] ≡ fault → IsFixed read
fault-IsFixed read refused w e = absurd (cc (refused, e))

-- A number in the format.
int32-IsFixed :
    (r : Result ℤ) (make : ℤ → Parsed) → IsFixed (λ args. r >>= λ w. ok (with_args (make w) args))
int32-IsFixed (ok w) make = ok-IsFixed (make w)
int32-IsFixed fault make = fault-IsFixed _ refl
int32-IsFixed halted make = λ w e. absurd (cc e)
int32-IsFixed no_fuel make = λ w e. absurd (cc e)

pub parse_width-IsFixed : (flags : Flags) (fmt : List ℕ) → IsFixed (parse_width flags fmt)
unfolding parse_width
parse_width-IsFixed flags fmt = if-IsFixed (current fmt == b'*') _ _ (fault-IsFixed _ refl) (
    if-IsFixed (is_digit (current fmt)) _ _
      (int32-IsFixed (int32 (parse_digits fmt 0).0) (λ w. record {
        flags = flags;
        width = w;
        precision = negsuc 0;
        fmt = (parse_digits fmt 0).1;
        args = [];
      }))
      (ok-IsFixed (starting flags fmt [])))

pub parse_precision-IsFixed : (p : Parsed) → IsFixed (λ args. parse_precision (with_args p args))
unfolding parse_precision parse_after_dot
parse_precision-IsFixed p =
    if-IsFixed (current p.fmt == b'.') _ _
      (if-IsFixed (current (next p.fmt) == b'*') _ _ (fault-IsFixed _ refl) (
        if-IsFixed (is_digit (current (next p.fmt))) _ _
          (int32-IsFixed (int32 (parse_digits (next p.fmt) 0).0)
            (λ n. record p { precision = n; fmt = (parse_digits (next p.fmt) 0).1 }))
          (ok-IsFixed (record p { precision = pos 0; fmt = next p.fmt }))))
      (ok-IsFixed p)
