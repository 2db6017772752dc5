-- ===== src/Printk/Number/Field.antt =====
-- The field that `number` of kernel/printk.c writes, described without its own helpers.
use knos.Base.{
  ℕ, ◌+◌, ◌-◌, Bool, true, false, List, [], ◌∷◌, ◌++◌, map, reverse, length, replicate, ltb, ◌==◌,
  if◌then◌else◌, max,
}
use knos.Base.Int.{ℤ, rounds}
use knos.Printk.Number.{Flags}
use knos.Printk.Number.Layout.{prefix_text, layout}
use knos.Printk.Buffer.{Buffer}

-- The sign of a field, by SIGN, the number's sign, PLUS and SPACE.
unfoldable pub sign_of : Bool → Bool → Bool → Bool → List ℕ
sign_of false negative plus space = []
sign_of true true plus space = b'-' ∷ []
sign_of true false true space = b'+' ∷ []
sign_of true false false true = b' ' ∷ []
sign_of true false false false = []

-- The character of a digit: 0 to 9 and the letters behind.
abbrev pub character_of : Bool → ℕ → ℕ
character_of small d = if ltb d 10 then 48 + d else if small then 87 + d else 55 + d

-- What '#' takes off the width on top of the prefix itself.
abbrev pub width_lost : Flags → ℕ → ℕ
width_lost flags base = if flags.special then (if base == 8 then 1 else 2) else 0

-- What is left of the width behind `used` characters.
abbrev pub padding_of : Flags → ℕ → ℤ → ℕ → ℕ
padding_of flags base width used = rounds width - width_lost flags base - used

-- The zeros that the precision asks for, and the digits, the highest first.
abbrev pub body_of : Bool → ℕ → List ℕ → List ℕ
body_of small n ds = replicate (n - length ds) b'0' ++ reverse (map (character_of small) ds)

-- The field of a number with `k` digits `ds`.
abbrev pub field_of : Flags → ℕ → ℤ → ℤ → Bool → ℕ → List ℕ → List ℕ
field_of flags base width prec negative k ds =
    let sign = sign_of flags.sign negative flags.plus flags.space in
    let prefix = prefix_text flags base in
    let n = max (rounds prec) k in
    layout flags sign prefix (body_of flags.small n ds)
      (padding_of flags base width (length sign + length prefix + n))
