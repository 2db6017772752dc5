-- ===== src/Printk/Number.antt =====
-- `number` of kernel/printk.c: an integer in a base from 2 to 36, with sign, prefix and padding.
pub mod Digits
pub mod Layout
pub mod Field
use Prim.Native.String.{String}
use Prim.Native.Char.{code}
use knos.Base.{
  ℕ, zero, suc, ◌+◌, ◌-◌, ◌/◌, ◌%◌, Bool, true, false, not, ◌&&◌, ◌||◌, Option, none, some, List,
  [], ◌∷◌, ◌++◌, map, reverse, length, get_elem?, ltb, leb, ◌==◌, if◌then◌else◌, max,
}
use knos.Base.Int.{ℤ, pos, negsuc, minus, rounds}
use knos.Printk.Buffer.{Buffer, put, push, fill, copy}

-- The format flags, one bit each in the source.
pub record Flags : Type 0 where
  pub zeropad : Bool
  pub sign : Bool
  pub plus : Bool
  pub space : Bool
  pub left : Bool
  pub special : Bool
  pub small : Bool

-- The code points of a text.
abbrev pub codes : String → List ℕ
codes String.[] = []
codes (String.◌∷◌ c s) = code c ∷ codes s

abbrev pub digit_chars : Bool → List ℕ
digit_chars small =
    if small
    then codes "0123456789abcdefghijklmnopqrstuvwxyz"
    else codes "0123456789ABCDEFGHIJKLMNOPQRSTUVWXYZ"

-- `digits[rem]`, for a remainder below 36.
unfoldable pub digit : Bool → ℕ → ℕ
digit small rem = elim (get_elem? (digit_chars small) rem) [ none ↦ 0 | some c ↦ c ]

-- Step 7: the digits from the lowest up. The loop stops at 72, the size of `tmp`.
unfoldable pub digits_loop : ℕ → ℕ → ℕ → List ℕ
digits_loop zero num base = []
digits_loop (suc left) num base = elim (num == 0) [
  | true ↦ []
  | false ↦ num % base ∷ digits_loop left (num / base) base
]

unfoldable pub digits_of : ℕ → ℕ → List ℕ
digits_of num base = elim (num == 0) [ true ↦ 0 ∷ [] | false ↦ digits_loop 72 num base ]

-- Step 5: the sign character, if any.
unfoldable pub sign_char : Flags → Bool → Option ℕ
sign_char flags is_negative =
    if flags.sign
    then (if is_negative
        then some b'-'
        else if flags.plus
        then some b'+'
        else if flags.space
        then some b' '
        else none)
    else none

abbrev pub sign_text : Option ℕ → List ℕ
sign_text none = []
sign_text (some c) = c ∷ []

-- Steps 6 and 9: what is left of the field's width for padding. Step 6 takes the prefix off for the
-- bases 8 and 16, and step 9 takes it off again, for every base.
unfoldable pub width_for_prefix : Flags → ℕ → ℤ → ℤ
width_for_prefix flags base width =
    if flags.special
    then (if base == 8 then minus width 1 else if base == 16 then minus width 2 else width)
    else width

unfoldable pub padding : Flags → ℕ → ℤ → Option ℕ → ℕ → ℤ
padding flags base width sign n =
    minus (width_for_prefix flags base width)
      (length (sign_text sign) + n + (if flags.special then (if base == 8 then 1 else 2) else 0))

-- Step 12: the prefix.
unfoldable pub put_prefix : Flags → ℕ → Buffer → Buffer
put_prefix flags base b =
    if flags.special
    then (if base == 8 && ltb 0 b.room
        then push b'0' b
        else if base == 16 && ltb 1 b.room
        then push (if flags.small then b'x' else b'X') (push b'0' b)
        else b)
    else b

-- The characters of the digits, in the order in which step 15 writes them.
abbrev pub digit_text : Flags → List ℕ → List ℕ
digit_text flags ds = reverse (map (digit flags.small) ds)

-- Steps 10 to 16, over the digits `ds`, `pad` characters of padding, and `zeros` zeros for the
-- precision. LEFT switches ZEROPAD off (step 3).
unfoldable pub write_number : Flags → ℕ → Option ℕ → List ℕ → ℕ → ℕ → Buffer → Buffer
write_number flags base sign ds pad zeros b =
    let b1 = if not flags.zeropad && not flags.left then fill pad b' ' b else b in
    let b2 = copy (sign_text sign) b1 in
    let b3 = put_prefix flags base b2 in
    let b4 = if not flags.left && flags.zeropad then fill pad b'0' b3 else b3 in
    let b5 = copy (digit_text flags ds) (fill zeros b'0' b4) in
    if flags.left then fill pad b' ' b5 else b5

-- `prec` is negative where the format gives none. A base that is not supported writes nothing.
unfoldable pub number : Buffer → ℕ → ℕ → ℤ → ℤ → Flags → Bool → Buffer
number b num base width prec flags is_negative =
    if ltb base 2 || ltb 36 base
    then b
    else (let ds = digits_of num base in
        let n = max (rounds prec) (length ds) in
        let sign = sign_char flags is_negative in
        write_number flags base sign ds (rounds (padding flags base width sign n)) (n - length ds)
          b)
