-- ===== src/Printk/Vsnprintf/Enough.antt =====
-- `vsnprintf` of kernel/printk.c with the arguments and the room that its format asks for.
use mathlib.Core.Path.{subst}
use knos.Base.{
  ltb, max, Option, none, some, ℕ, ◌+◌, ◌-◌, ◌%◌, ◌^◌, ◌≤◌, ◌≡◌, refl, ap, ◌∙◌, Bool, true, false,
  ◌&&◌, ◌||◌, Bool-cases, ◌⊎◌, inl, inr, List, [], ◌∷◌, ok, Result, ◌>>=◌, ok-injective, arith,
  length, leb, ◌==◌, ==→eq, if◌then◌else◌,
}
use knos.Base.Int.{ℤ, pos, rounds, magnitude, is_negative}
use knos.Printk.Buffer.{Buffer, put, fill}
use knos.Printk.Growth.{Grows, put-Grows, fill-Grows, number-Grows}
use knos.Printk.Number.{Flags, number}
use knos.Printk.Format.{
  signed, signed_value, unsigned_value, current, next, Parsed, Qualifier, plain, short, big, long,
  long_long,
}
use knos.Printk.Vsnprintf.{
  Printing, written, print_char, string_of, print_signed, print_unsigned, print_pointer,
  takes_argument, convert, dispatch,
}
use knos.Printk.Vsnprintf.Strings.{AreShort, length-string_of, print_string-Grows}
use knos.Printk.Vsnprintf.Demand.{
  Demand, is_width, string_demand, field_size, is_narrow, conversion_demand, with_args,
}

-- The demand is what the step took, at most.
abbrev pub IsServed : Demand → Printing → Printing → Type 0
IsServed d s s' =
    (length s'.args + d.arguments ≡ length s.args)
    × (length s'.buffer.text ≤ length s.buffer.text + d.characters)
    × (s'.stores ≡ s.stores)

print_char-Grows :
    (flags : Flags) (width : ℤ) (c : ℕ) (b : Buffer)
    → Grows (rounds width - 1 + 1) b (print_char flags width c b)
unfolding print_char
print_char-Grows flags width c b = elim (Bool-cases flags.left) [
  | inl e ↦ rw e (omega (arith, put-Grows c b, fill-Grows (rounds width - 1) b' ' (put c b)))
  | inr e ↦ rw e (
      omega
        (arith, fill-Grows (rounds width - 1) b' ' b, put-Grows c (fill (rounds width - 1) b' ' b)))
]

-- A number of 32 bits or fewer has a negation.
narrow-bound :
    (q : Qualifier) (a : ℕ)
    → is_narrow q ≡ true
    → leb (2 ^ 63) (magnitude (signed_value q a)) ≡ false
unfolding signed
narrow-bound plain a e = ground arith
narrow-bound short a e = ground arith
narrow-bound big a e = ground arith
narrow-bound long a e = absurd (cc e)
narrow-bound long_long a e = absurd (cc e)

some_first : (args : List ℕ) → 1 ≤ length args → (a : ℕ) × (rest : List ℕ) × (args ≡ a ∷ rest)
some_first [] some_left = absurd (omega arith)
some_first (a ∷ rest) some_left = (a, rest, refl)

module _ (longest : Option ℕ) (string_at : ℕ → List ℕ) (brief : AreShort string_at longest)
    (start : List ℕ) (p : Parsed) (q : Qualifier) (fmt : List ℕ) (s : Printing) where
  -- What the code makes of the conversion.
  abbrev pub Converted : Demand → Type 0
  Converted d =
      (s' : Printing) × (dispatch string_at start (with_args p s.args) q fmt s ≡ ok (next fmt, s'))
      × IsServed d s s'

  dispatch_run :
      (a : ℕ) (args : List ℕ) (c : ℕ) (s' : Printing)
      → current fmt ≡ c
      → takes_argument c ≡ true
      → s.args ≡ a ∷ args
      → convert string_at (with_args p s.args) q c a args s ≡ ok s'
      → dispatch string_at start (with_args p s.args) q fmt s ≡ ok (next fmt, s')
  unfolding dispatch
  dispatch_run a args c s' at takes e run =
      rw (at, takes, e) (ap (λ r. r >>= λ x. ok (next fmt, x)) (rw e at run))

  -- A conversion that takes an argument and writes.
  abbrev Writes : ℕ → ℕ → Type 0
  Writes c k =
      (a : ℕ) (args : List ℕ)
      → (b : Buffer) × (convert string_at (with_args p s.args) q c a args s ≡ ok (written s args b))
        × Grows k s.buffer b

  one_argument :
      (c k : ℕ)
      → current fmt ≡ c
      → takes_argument c ≡ true
      → 1 ≤ length s.args
      → Writes c k
      → Converted (record { arguments = 1; characters = k })
  one_argument c k at takes some_left writes =
      let (a, args, e) = some_first s.args some_left in
      let (b, run, grows) = writes a args in
      (
        written s args b,
        dispatch_run a args c (written s args b) at takes e run,
        (omega (arith, ap length e), grows, refl),
      )

  print_char-Writes : Writes b'c' (rounds p.width - 1 + 1)
  unfolding convert
  print_char-Writes a args = (
    print_char p.flags p.width (a % 2 ^ 8) s.buffer,
    refl,
    print_char-Grows p.flags p.width (a % 2 ^ 8) s.buffer,
  )

  print_pointer-Writes : Writes b'p' (field_size (pos 16) p.precision)
  unfolding convert print_pointer
  print_pointer-Writes a args = (_, refl, number-Grows s.buffer a 16 (pos 16) p.precision _ false)

  print_signed-Writes :
      (c : ℕ)
      → is_narrow q ≡ true
      → (c ≡ b'd') ⊎ (c ≡ b'i')
      → Writes c (field_size p.width p.precision)
  unfolding convert print_signed
  print_signed-Writes c narrow which a args =
      let n = signed_value q a in
      let signed_c : (c == b'd' || c == b'i') ≡ true = ground arith in
      let not_c : (c == b'c') ≡ false = ground arith in
      let not_s : (c == b's') ≡ false = ground arith in
      let not_p : (c == b'p') ≡ false = ground arith in
      (
        number s.buffer (magnitude n) 10 p.width p.precision (record p.flags { sign = true })
            (is_negative n),
        rw (not_c, not_s, not_p, signed_c, narrow-bound q a narrow) refl,
        number-Grows s.buffer (magnitude n) 10 p.width p.precision _ (is_negative n),
      )

  print_small-Writes :
      (c : ℕ) → (c ≡ b'u') ⊎ ((c ≡ b'o') ⊎ (c ≡ b'x')) → Writes c (field_size p.width p.precision)
  unfolding convert print_unsigned
  print_small-Writes c which a args =
      let small_c : (c == b'u' || (c == b'o' || c == b'x')) ≡ true = ground arith in
      let not_c : (c == b'c') ≡ false = ground arith in
      let not_s : (c == b's') ≡ false = ground arith in
      let not_p : (c == b'p') ≡ false = ground arith in
      let not_d : (c == b'd' || c == b'i') ≡ false = ground arith in
      (
        number s.buffer (unsigned_value q a) 16 p.width p.precision
            (record p.flags { small = true }) false,
        rw (not_c, not_s, not_p, not_d, small_c) refl,
        number-Grows s.buffer (unsigned_value q a) 16 p.width p.precision _ false,
      )

  print_large-Writes : Writes b'X' (field_size p.width p.precision)
  unfolding convert print_unsigned
  print_large-Writes a args =
      (_, refl, number-Grows s.buffer (unsigned_value q a) 16 p.width p.precision _ false)

  -- If there are the arguments for it, the code serves what is demanded.
  abbrev pub Serves : Result Demand → Type 0
  Serves r = (d : Demand) → r ≡ ok d → d.arguments ≤ length s.args → Converted d

  if-Serves :
      (test : Bool) (a b : Result Demand)
      → (test ≡ true → Serves a)
      → (test ≡ false → Serves b)
      → Serves (if test then a else b)
  if-Serves true a b h k = h refl
  if-Serves false a b h k = k refl

  ok-Serves : (d : Demand) → (d.arguments ≤ length s.args → Converted d) → Serves (ok d)
  ok-Serves d h d' e enough =
      let same : d ≡ d' = ok-injective e in
      subst Converted same (h (omega (arith, ap (λ x. x.arguments) same)))

  percent :
      (c : ℕ) → current fmt ≡ c → c ≡ b'%' → Converted (record { arguments = 0; characters = 1 })
  unfolding dispatch
  percent c at is = (
    written s s.args (put b'%' s.buffer),
    rw (at, is) refl,
    (omega arith, put-Grows b'%' s.buffer, refl),
  )

  unsigned_case :
      (c : ℕ)
      → current fmt ≡ c
      → (c == b'u' || (c == b'o' || (c == b'x' || c == b'X'))) ≡ true
      → 1 ≤ length s.args
      → Converted (record { arguments = 1; characters = field_size p.width p.precision })
  unsigned_case c at e enough = elim (Bool-cases (c == b'X')) [
    | inl is ↦ one_argument b'X' _ (at ∙ ==→eq c b'X' is) refl enough print_large-Writes
    | inr other ↦ one_argument c _ at (ground arith) enough (print_small-Writes c (ground arith))
  ]

  print_string-Writes :
      (n : ℕ)
      → AreShort string_at (some n)
      → (ltb n (2 ^ 31) && is_width p.width) ≡ true
      → Writes b's' (rounds p.width + max n 6)
  unfolding convert
  print_string-Writes n brief small a args =
      let (b, run, grows) =
        print_string-Grows p.flags p.width p.precision (string_of string_at a) (max n 6) s.buffer
          (ground arith) (length-string_of string_at n a brief) (ground arith) in
      (b, ap (λ r. r >>= λ b. ok (written s args b)) run, grows)

  string-Serves :
      (bound : Option ℕ)
      → AreShort string_at bound
      → current fmt ≡ b's'
      → Serves (string_demand bound p.width)
  string-Serves none brief at = λ d e. absurd (cc e)
  string-Serves (some n) brief at =
      if-Serves (ltb n (2 ^ 31) && is_width p.width) _ _
        (λ small.
          ok-Serves _
            (λ enough. one_argument b's' _ at refl enough (print_string-Writes n brief small)))
        (λ large d e. absurd (cc e))

  pub conversion-Serves : (c : ℕ) → current fmt ≡ c → Serves (conversion_demand longest p q c)
  unfolding conversion_demand
  conversion-Serves c at =
      if-Serves (c == b'c') _ _
        (λ e.
          ok-Serves _
            (λ enough. one_argument b'c' _ (at ∙ ==→eq c b'c' e) refl enough print_char-Writes))
        (λ not_c.
          if-Serves (c == b's') _ _ (λ e. string-Serves longest brief (at ∙ ==→eq c b's' e))
            (λ not_s.
              if-Serves (c == b'p') _ _
                (λ e. ok-Serves _ (λ enough.
                  one_argument b'p' _ (at ∙ ==→eq c b'p' e) refl enough print_pointer-Writes))
                (λ not_p.
                  if-Serves ((c == b'd' || c == b'i') && is_narrow q) _ _
                    (λ e. ok-Serves _ (λ enough.
                      one_argument c _ at (ground arith) enough
                        (print_signed-Writes c (ground arith) (ground arith))))
                    (λ not_d.
                      if-Serves (c == b'u' || (c == b'o' || (c == b'x' || c == b'X'))) _ _
                        (λ e. ok-Serves _ (λ enough. unsigned_case c at e enough))
                        (λ not_u.
                          if-Serves (c == b'%') _ _
                            (λ e. ok-Serves _ (λ enough. percent c at (==→eq c b'%' e)))
                            (λ not_percent d e. absurd (cc e)))))))
