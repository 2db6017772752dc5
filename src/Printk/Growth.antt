-- ===== src/Printk/Growth.antt =====
-- How much the writers of kernel/printk.c write at most.
use knos.Base.{
  ℕ, zero, suc, ◌+◌, ◌-◌, ◌/◌, ◌≤◌, ◌∙◌, ◌≡◌, Bool, true, false, not, ◌&&◌, ◌||◌, Option, none,
  some, List, [], ◌∷◌, inl, inr, Bool-cases, arith, length, length-append, length-map,
  length-reverse, map, ltb, ◌==◌, if◌then◌else◌, max,
}
use knos.Base.Int.{ℤ, pos, negsuc, minus, rounds}
use knos.Printk.Buffer.{Buffer, push, put, fill, copy}
use knos.Printk.Number.{
  Flags, digit, digits_loop, digits_of, sign_char, sign_text, width_for_prefix, padding, put_prefix,
  digit_text, write_number, number,
}

-- At most `k` bytes are written.
abbrev pub Grows : ℕ → Buffer → Buffer → Type 0
Grows k b c = length c.text ≤ length b.text + k

push-Grows : (c : ℕ) (b : Buffer) → Grows 1 b (push c b)
unfolding push
push-Grows c b = omega (arith, length-append b.text (c ∷ []))

pub put-Grows : (c : ℕ) (b : Buffer) → Grows 1 b (put c b)
unfolding put
put-Grows c b = elim (Bool-cases (b.room == 0)) [
  | inl e ↦ rw (e, put) (omega arith)
  | inr e ↦ rw (e, put) (push-Grows c b)
]

pub fill-Grows : (n c : ℕ) (b : Buffer) → Grows n b (fill n c b)
unfolding fill
fill-Grows zero c b = omega arith
fill-Grows (suc n) c b = elim (Bool-cases (b.room == 0)) [
  | inl e ↦ rw (e, fill) (omega arith)
  | inr e ↦ rw (e, fill) (omega (arith, fill-Grows n c (push c b), push-Grows c b))
]

pub copy-Grows : (cs : List ℕ) (b : Buffer) → Grows (length cs) b (copy cs b)
unfolding copy
copy-Grows [] b = omega arith
copy-Grows (c ∷ cs) b = elim (Bool-cases (b.room == 0)) [
  | inl e ↦ rw (e, copy) (omega arith)
  | inr e ↦ rw (e, copy) (omega (arith, copy-Grows cs (push c b), push-Grows c b))
]

put_prefix-Grows : (flags : Flags) (base : ℕ) (b : Buffer) → Grows 2 b (put_prefix flags base b)
unfolding put_prefix push
put_prefix-Grows flags base b = grind (arith, length-append, length-append b.text (b'0' ∷ []))

left-Grows :
    (sign digits : List ℕ) (put_it : Buffer → Buffer) (pad zeros : ℕ) (b : Buffer)
    → ((c : Buffer) → Grows 2 c (put_it c))
    → Grows
        (pad + length sign + 2 + zeros + length digits)
        b
        (fill pad b' ' (copy digits (fill zeros b'0' (put_it (copy sign b)))))
left-Grows sign digits put_it pad zeros b short =
    let b2 = copy sign b in
    let b3 = put_it b2 in
    let b5 = copy digits (fill zeros b'0' b3) in
    omega (
      arith,
      copy-Grows sign b,
      short b2,
      fill-Grows zeros b'0' b3,
      copy-Grows digits (fill zeros b'0' b3),
      fill-Grows pad b' ' b5,
    )

-- The padding is written once, whatever the flags; the steps of `write_number` with any writer of a
-- prefix of at most two characters.
parts-Grows :
    (left zeropad : Bool) (sign digits : List ℕ) (put_it : Buffer → Buffer) (pad zeros : ℕ)
    (b : Buffer)
    → ((c : Buffer) → Grows 2 c (put_it c))
    → Grows (pad + length sign + 2 + zeros + length digits) b (
        let b1 = if not zeropad && not left then fill pad b' ' b else b in
        let b3 = put_it (copy sign b1) in
        let b4 = if not left && zeropad then fill pad b'0' b3 else b3 in
        let b5 = copy digits (fill zeros b'0' b4) in if left then fill pad b' ' b5 else b5)
parts-Grows true true sign digits put_it pad zeros b short =
    left-Grows sign digits put_it pad zeros b short
parts-Grows true false sign digits put_it pad zeros b short =
    left-Grows sign digits put_it pad zeros b short
parts-Grows false true sign digits put_it pad zeros b short =
    let b2 = copy sign b in
    let b4 = fill pad b'0' (put_it b2) in
    omega (
      arith,
      copy-Grows sign b,
      short b2,
      fill-Grows pad b'0' (put_it b2),
      fill-Grows zeros b'0' b4,
      copy-Grows digits (fill zeros b'0' b4),
    )
parts-Grows false false sign digits put_it pad zeros b short =
    let b1 = fill pad b' ' b in
    let b2 = copy sign b1 in
    let b3 = put_it b2 in
    omega (
      arith,
      fill-Grows pad b' ' b,
      copy-Grows sign b1,
      short b2,
      fill-Grows zeros b'0' b3,
      copy-Grows digits (fill zeros b'0' b3),
    )

sign-length : (sign : Option ℕ) → length (sign_text sign) ≤ 1
sign-length none = omega arith
sign-length (some c) = omega arith

length-digit_text : (flags : Flags) (ds : List ℕ) → length (digit_text flags ds) ≡ length ds
length-digit_text flags ds =
    length-reverse (map (digit flags.small) ds) ∙ length-map (digit flags.small) ds

write_number-Grows :
    (flags : Flags) (base : ℕ) (sign : Option ℕ) (ds : List ℕ) (pad zeros : ℕ) (b : Buffer)
    → Grows (pad + 3 + zeros + length ds) b (write_number flags base sign ds pad zeros b)
unfolding write_number
write_number-Grows flags base sign ds pad zeros b = omega (
  arith,
  sign-length sign,
  length-digit_text flags ds,
  parts-Grows flags.left flags.zeropad (sign_text sign) (digit_text flags ds)
      (put_prefix flags base) pad zeros b (put_prefix-Grows flags base),
)

length-digits_loop : (left num base : ℕ) → length (digits_loop left num base) ≤ left
unfolding digits_loop
length-digits_loop zero num base = omega arith
length-digits_loop (suc left) num base = elim (Bool-cases (num == 0)) [
  | inl e ↦ rw (e, digits_loop) (omega arith)
  | inr e ↦ rw (e, digits_loop) (omega (arith, length-digits_loop left (num / base) base))
]

length-digits_of : (num base : ℕ) → length (digits_of num base) ≤ 72
unfolding digits_of
length-digits_of num base = elim (Bool-cases (num == 0)) [
  | inl e ↦ rw (e, digits_of, length) (omega arith)
  | inr e ↦ rw (e, digits_of, length) (length-digits_loop 72 num base)
]

rounds-minus : (w : ℤ) (k : ℕ) → rounds (minus w k) ≤ rounds w
rounds-minus (pos n) k = ground arith
rounds-minus (negsuc n) k = omega arith

rounds-width_for_prefix :
    (flags : Flags) (base : ℕ) (width : ℤ)
    → rounds (width_for_prefix flags base width) ≤ rounds width
unfolding width_for_prefix
rounds-width_for_prefix flags base width =
    ground (arith, rounds-minus width 1, rounds-minus width 2)

rounds-padding :
    (flags : Flags) (base : ℕ) (width : ℤ) (sign : Option ℕ) (n : ℕ)
    → rounds (padding flags base width sign n) ≤ rounds width
unfolding padding
rounds-padding flags base width sign n = omega (
  arith,
  rounds-minus (width_for_prefix flags base width) _,
  rounds-width_for_prefix flags base width,
)

-- A number takes its width, and 3 more than its precision or the 72 places of its digits.
pub number-Grows :
    (b : Buffer) (num base : ℕ) (width prec : ℤ) (flags : Flags) (negative : Bool)
    → Grows
        (rounds width + 3 + max (rounds prec) 72)
        b
        (number b num base width prec flags negative)
unfolding number
number-Grows b num base width prec flags negative =
    let ds = digits_of num base in
    let n = max (rounds prec) (length ds) in
    let sign = sign_char flags negative in
    let pad = rounds (padding flags base width sign n) in
    let grown = write_number-Grows flags base sign ds pad (n - length ds) b in
    elim (Bool-cases (ltb base 2 || ltb 36 base)) [
      | inl e ↦ rw e (omega arith)
      | inr e ↦
          rw e (
            omega (arith, grown, length-digits_of num base, rounds-padding flags base width sign n))
    ]
