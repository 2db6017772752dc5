-- ===== src/Printk/Number/Layout.antt =====
-- Where the buffer has room, `number` of kernel/printk.c writes the field that its flags describe.
use mathlib.Core.List.{append-nil, append_assoc}
use knos.Base.{
  ℕ, ◌-◌, ◌≤◌, ◌≡◌, ap, sym, ◌∙◌, Bool, true, false, not, ◌&&◌, ◌||◌, Option, List, [], ◌∷◌, ◌++◌,
  arith, length, length-append, replicate, ltb, ◌==◌, if◌then◌else◌, max,
}
use knos.Base.Int.{ℤ, rounds}
use knos.Printk.Buffer.{Buffer, push, fill, copy, emit, emit-nil, emit-append, copy-emit, fill-copy}
use knos.Printk.Number.{
  Flags, sign_text, sign_char, put_prefix, digit_text, digits_of, padding, write_number, number,
}

-- The prefix of a field.
unfoldable pub prefix_text : Flags → ℕ → List ℕ
prefix_text flags base =
    if flags.special
    then (if base == 8
        then b'0' ∷ []
        else if base == 16
        then b'0' ∷ (if flags.small then b'x' else b'X') ∷ []
        else [])
    else []

-- A field: padded behind if LEFT is set, else with zeros behind sign and prefix if ZEROPAD is, else
-- with spaces before.
unfoldable pub layout : Flags → List ℕ → List ℕ → List ℕ → ℕ → List ℕ
layout flags sign prefix body pad =
    if flags.left
    then sign ++ (prefix ++ (body ++ replicate pad b' '))
    else if flags.zeropad
    then sign ++ (prefix ++ (replicate pad b'0' ++ body))
    else replicate pad b' ' ++ (sign ++ (prefix ++ body))

-- With room for it, the function writes the text.
Writes : List ℕ → (Buffer → Buffer) → Type 0
Writes cs f = (b : Buffer) → length cs ≤ b.room → f b ≡ emit cs b

Writes-then :
    (cs ds : List ℕ) (f g : Buffer → Buffer)
    → Writes cs f
    → Writes ds g
    → Writes (cs ++ ds) (λ b. g (f b))
unfolding Writes
Writes-then cs ds f g hf hg b room =
    ap g (hf b (omega (arith, length-append cs ds)))
    ∙ (hg (emit cs b) (omega (arith, length-append cs ds)) ∙ emit-append cs ds b)

copy-Writes : (cs : List ℕ) → Writes cs (copy cs)
unfolding Writes
copy-Writes cs = copy-emit cs

fill-Writes : (n c : ℕ) → Writes (replicate n c) (fill n c)
unfolding Writes
fill-Writes n c b room = fill-copy n c b ∙ copy-emit (replicate n c) b room

prefix-Writes : (flags : Flags) (base : ℕ) → Writes (prefix_text flags base) (put_prefix flags base)
unfolding Writes put_prefix push prefix_text
prefix-Writes flags base b room = grind (arith, append-nil b.text, append_assoc)

nothing-Writes : Writes [] (λ b. b)
unfolding Writes
nothing-Writes b room = sym (emit-nil b)

-- Steps 14 and 15.
body-Writes :
    (digits : List ℕ) (zeros : ℕ)
    → Writes (replicate zeros b'0' ++ digits) (λ b. copy digits (fill zeros b'0' b))
body-Writes digits zeros =
    Writes-then _ digits (fill zeros b'0') _ (fill-Writes zeros b'0') (copy-Writes digits)

-- The sign, the prefix and what comes behind them.
signed-Writes :
    (sign prefix rest : List ℕ) (put_it put_rest : Buffer → Buffer)
    → Writes prefix put_it
    → Writes rest put_rest
    → Writes (sign ++ (prefix ++ rest)) (λ b. put_rest (put_it (copy sign b)))
signed-Writes sign prefix rest put_it put_rest h k =
    Writes-then sign (prefix ++ rest) (copy sign) _ (copy-Writes sign)
      (Writes-then prefix rest put_it put_rest h k)

left-Writes :
    (sign prefix digits : List ℕ) (put_it : Buffer → Buffer) (pad zeros : ℕ)
    → Writes prefix put_it
    → Writes
        (sign ++ (prefix ++ ((replicate zeros b'0' ++ digits) ++ replicate pad b' ')))
        (λ b. fill pad b' ' (copy digits (fill zeros b'0' (put_it (copy sign b)))))
left-Writes sign prefix digits put_it pad zeros h = signed-Writes sign prefix _ put_it _ h (
    Writes-then _ _ (λ b. copy digits (fill zeros b'0' b)) _ (body-Writes digits zeros)
      (fill-Writes pad b' '))

-- `write_number` by the flags it reads, with any writer of a prefix.
parts-Writes :
    (left zeropad : Bool) (sign prefix digits : List ℕ) (put_it : Buffer → Buffer) (pad zeros : ℕ)
    → Writes prefix put_it
    → Writes
        (if left
          then sign ++ (prefix ++ ((replicate zeros b'0' ++ digits) ++ replicate pad b' '))
          else if zeropad
          then sign ++ (prefix ++ (replicate pad b'0' ++ (replicate zeros b'0' ++ digits)))
          else replicate pad b' ' ++ (sign ++ (prefix ++ (replicate zeros b'0' ++ digits))))
        (λ b.
          let b1 = if not zeropad && not left then fill pad b' ' b else b in
          let b3 = put_it (copy sign b1) in
          let b4 = if not left && zeropad then fill pad b'0' b3 else b3 in
          let b5 = copy digits (fill zeros b'0' b4) in if left then fill pad b' ' b5 else b5)
parts-Writes true true sign prefix digits put_it pad zeros h =
    left-Writes sign prefix digits put_it pad zeros h
parts-Writes true false sign prefix digits put_it pad zeros h =
    left-Writes sign prefix digits put_it pad zeros h
parts-Writes false true sign prefix digits put_it pad zeros h =
    signed-Writes sign prefix _ put_it _ h
      (Writes-then _ _ (fill pad b'0') _ (fill-Writes pad b'0') (body-Writes digits zeros))
parts-Writes false false sign prefix digits put_it pad zeros h =
    Writes-then _ _ (fill pad b' ') _ (fill-Writes pad b' ')
      (signed-Writes sign prefix _ put_it _ h (body-Writes digits zeros))

-- Where the field fits into the buffer, `write_number` appends just the field.
pub write_number-layout :
    (flags : Flags) (base : ℕ) (sign : Option ℕ) (ds : List ℕ) (pad zeros : ℕ) (b : Buffer)
    → let field =
        layout flags
          (sign_text sign)
          (prefix_text flags base)
          (replicate zeros b'0' ++ digit_text flags ds)
          pad in
      length field ≤ b.room → write_number flags base sign ds pad zeros b ≡ emit field b
unfolding write_number layout Writes
write_number-layout flags base sign ds pad zeros b =
    parts-Writes flags.left flags.zeropad (sign_text sign) (prefix_text flags base)
      (digit_text flags ds) (put_prefix flags base) pad zeros (prefix-Writes flags base) b

-- `number` in terms of its helpers.
pub number-layout :
    (b : Buffer) (num base : ℕ) (width prec : ℤ) (flags : Flags) (negative : Bool)
    → let ds = digits_of num base in
      let n = max (rounds prec) (length ds) in
      let sign = sign_char flags negative in
      let field =
        layout flags
          (sign_text sign)
          (prefix_text flags base)
          (replicate (n - length ds) b'0' ++ digit_text flags ds)
          (rounds (padding flags base width sign n)) in
      2 ≤ base
      → base ≤ 36
      → length field ≤ b.room
      → number b num base width prec flags negative ≡ emit field b
unfolding number
number-layout b num base width prec flags negative low high room =
    let supported : (ltb base 2 || ltb 36 base) ≡ false = ground arith in
    rw supported (write_number-layout flags base _ _ _ _ b room)
