-- ===== src/Printk/Vsnprintf.antt =====
-- `vsnprintf` of kernel/printk.c.
pub mod Bounds
pub mod Plain
pub mod Demand
pub mod Strings
pub mod Enough
pub mod Safe
use knos.Base.{
  take, ℕ, zero, suc, ◌+◌, ◌-◌, ◌*◌, ◌%◌, ◌^◌, Bool, true, false, ◌||◌, Option, none, some, List,
  [], ◌∷◌, ◌++◌, Result, ok, fault, no_fuel, ◌>>=◌, length, ltb, leb, ◌==◌, if◌then◌else◌, min,
}
use knos.Base.Word.{sub64}
use knos.Base.Int.{ℤ, pos, negsuc, is_negative, magnitude, rounds}
use knos.Printk.Buffer.{Buffer, put, fill, copy}
use knos.Printk.Number.{Flags, codes, number}
use knos.Printk.Format.{
  signed, va_arg, current, next, no_flags, parse_flags, Parsed, parse_width, parse_precision,
  Qualifier, plain, short, long, long_long, big, parse_qualifier, unsigned_value, signed_value,
}

-- What `%n` stores: the address, the number of bytes, and the value.
pub record Store : Type 0 where
  pub address : ℕ
  pub bytes : ℕ
  pub value : ℕ

-- The state of the loop but for the format.
pub record Printing : Type 0 where
  pub buffer : Buffer
  pub args : List ℕ
  pub stores : List Store

-- An int32_t as a size_t.
abbrev pub as_size : ℤ → ℕ
as_size (pos n) = n
as_size (negsuc n) = 2 ^ 64 - 1 - n

-- `%c`, for the byte `c`.
unfoldable pub print_char : Flags → ℤ → ℕ → Buffer → Buffer
print_char flags width c b =
    let padding = rounds width - 1 in
    if flags.left then fill padding b' ' (put c b) else put c (fill padding b' ' b)

-- `%s`: the bytes before the terminating 0.
abbrev pub cut : ℤ → ℕ → ℕ
cut (pos p) len = min p len
cut (negsuc p) len = len

-- `(field_width > len) ? (field_width - len) : 0`, where both sides are compared as size_t and the
-- difference is cut to an int32_t.
abbrev pub string_padding : ℤ → ℕ → ℕ
string_padding width len =
    if ltb len (as_size width) then rounds (signed 32 (sub64 (as_size width) len)) else 0

-- `strlen`, whose result is an int32_t, as a size_t. It reads at most 2 ^ 32 - 1 bytes.
abbrev pub string_size : List ℕ → ℕ
string_size s = as_size (signed 32 (min (length s) (2 ^ 32 - 2)))

-- A negative length that no precision cuts moves `str + len` out of the address space, which is
-- undefined.
unfoldable pub print_string : Flags → ℤ → ℤ → List ℕ → Buffer → Result Buffer
print_string flags width precision s b =
    let len = cut precision (string_size s) in
    let padding = string_padding width len in
    if leb (2 ^ 63) len
    then fault
    else if flags.left
    then ok (fill padding b' ' (copy (take len s) b))
    else ok (copy (take len s) (fill padding b' ' b))

unfoldable pub print_pointer : Parsed → ℕ → Buffer → Buffer
print_pointer p a b =
    number b a 16 (pos 16) p.precision
      (record p.flags { special = true; small = true; zeropad = true }) false

-- `-signed_num` is undefined for the least int64_t.
unfoldable pub print_signed : Parsed → ℤ → Buffer → Result Buffer
print_signed p n b =
    if leb (2 ^ 63) (magnitude n)
    then fault
    else ok (
        number b (magnitude n) 10 p.width p.precision (record p.flags { sign = true })
          (is_negative n))

-- `%u`, `%o`, `%x` (small letters) and `%X`: all in base 16.
unfoldable pub print_unsigned : Parsed → Bool → ℕ → Buffer → Buffer
print_unsigned p small n b =
    number b n 16 p.width p.precision (record p.flags { small = small }) false

abbrev store_bytes : Qualifier → ℕ
store_bytes long_long = 8
store_bytes long = 4
store_bytes plain = 2
store_bytes short = 2
store_bytes big = 2

abbrev pub written : Printing → List ℕ → Buffer → Printing
written s args b = record s { buffer = b; args = args }

-- What a call leaves behind: the bytes written before the terminating 0, the index of that 0 (`none`
-- if nothing is written), the returned number, and what `%n` stored, the latest first.
pub record Printed : Type 0 where
  pub text : List ℕ
  pub terminator : Option ℕ
  pub returned : ℕ
  pub stores : List Store

abbrev pub takes_argument : ℕ → Bool
takes_argument c =
    c == b'c'
    || (c == b's'
        || (c == b'p'
            || (c == b'd'
                || (c == b'i'
                    || (c == b'u' || (c == b'o' || (c == b'x' || (c == b'X' || c == b'n'))))))))

abbrev pub finish : ℕ → Printing → Printed
finish size s = record {
  text = s.buffer.text;
  terminator = some (length s.buffer.text);
  returned = if ltb (length s.buffer.text) size then length s.buffer.text else size - 1;
  stores = s.stores;
}

-- `string_at` gives the bytes of the string at an address.
module _ (string_at : ℕ → List ℕ) where
  abbrev pub string_of : ℕ → List ℕ
  string_of a = if a == 0 then codes "(null)" else string_at a

  -- The conversion `c` with its argument `a`; the last branch is `%n`.
  unfoldable pub convert : Parsed → Qualifier → ℕ → ℕ → List ℕ → Printing → Result Printing
  convert p q c a args s =
      if c == b'c'
      then ok (written s args (print_char p.flags p.width (a % 2 ^ 8) s.buffer))
      else if c == b's'
      then (print_string p.flags p.width p.precision (string_of a) s.buffer >>= λ b.
          ok (written s args b))
      else if c == b'p'
      then ok (written s args (print_pointer p a s.buffer))
      else if c == b'd' || c == b'i'
      then (print_signed p (signed_value q a) s.buffer >>= λ b. ok (written s args b))
      else if c == b'u' || (c == b'o' || c == b'x')
      then ok (written s args (print_unsigned p true (unsigned_value q a) s.buffer))
      else if c == b'X'
      then ok (written s args (print_unsigned p false (unsigned_value q a) s.buffer))
      else ok (record s {
        args = args;
        stores =
            record {
              address = a;
              bytes = store_bytes q;
              value = length s.buffer.text % 2 ^ (8 * store_bytes q);
            }
            ∷ s.stores;
      })

  -- The conversion at the head of `fmt`, in a specification that began at `start`, the text behind
  -- its `%`. With it comes the format to go on with: an unknown conversion writes the `%` and goes
  -- back behind it.
  unfoldable pub dispatch :
      List ℕ → Parsed → Qualifier → List ℕ → Printing → Result (List ℕ × Printing)
  dispatch start p q fmt s =
      let c = current fmt in
      if takes_argument c
      then (va_arg p.args >>= λ a. convert p q c a.0 a.1 s >>= λ s'. ok (next fmt, s'))
      else if c == b'%'
      then ok (next fmt, written s p.args (put b'%' s.buffer))
      else ok (start, written s p.args (put b'%' s.buffer))

  -- `fmt` is the text behind a `%`.
  unfoldable pub specification : List ℕ → Printing → Result (List ℕ × Printing)
  specification fmt s =
      let f = parse_flags fmt no_flags in
      parse_width f.0 f.1 s.args >>= λ w.
      parse_precision w >>= λ p. let q = parse_qualifier p.fmt in dispatch fmt p q.0 q.1 s

  -- One round of the loop, at the character `c` of the format.
  unfoldable pub print_one : ℕ → List ℕ → Printing → Result (List ℕ × Printing)
  print_one c fmt s =
      if c == b'%' then specification fmt s else ok (fmt, record s { buffer = put c s.buffer })

  unfoldable pub print_loop : ℕ → List ℕ → Printing → Result Printing
  print_loop fuel [] s = ok s
  print_loop zero (c ∷ fmt) s = if s.buffer.room == 0 then ok s else no_fuel
  print_loop (suc fuel) (c ∷ fmt) s = elim (s.buffer.room == 0) [
    | true ↦ ok s
    | false ↦ print_one c fmt s >>= λ r. print_loop fuel r.0 r.1
  ]

  -- A round takes at least one character off the format, so the length of the format is enough fuel.
  unfoldable pub vsnprintf : ℕ → List ℕ → List ℕ → Result Printed
  vsnprintf size fmt args =
      if size == 0
      then ok (record { text = []; terminator = none; returned = 0; stores = [] })
      else (print_loop (length fmt) fmt
            (record { buffer = record { text = []; room = size }; args = args; stores = [] })
          >>= λ s. ok (finish size s))
