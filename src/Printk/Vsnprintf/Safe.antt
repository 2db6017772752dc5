-- ===== src/Printk/Vsnprintf/Safe.antt =====
-- A format whose demand is met makes `vsnprintf` of kernel/printk.c return, with all of its text.
use mathlib.Core.Path.{subst}
use knos.Base.{
  Option, ℕ, zero, suc, ◌+◌, ◌≤◌, ◌<◌, ◌≡◌, refl, ap, sym, ◌∙◌, true, false, Bool-cases, inl, inr,
  some, List, [], ◌∷◌, ok, Result, ◌>>=◌, >>=-ok, ok-injective, arith, length, ltb, ◌==◌,
}
use knos.Printk.Buffer.{put}
use knos.Printk.Growth.{put-Grows}
use knos.Printk.Format.{
  current, next, no_flags, parse_flags, Parsed, parse_width, parse_precision, parse_qualifier,
}
use knos.Printk.Vsnprintf.{
  Printing, dispatch, finish, Printed, specification, print_one, print_loop, vsnprintf,
}
use knos.Printk.Vsnprintf.Demand.{
  Demand, both, conversion_demand, specification_demand, character_demand, demand, with_args,
  parse_width-IsFixed, parse_precision-IsFixed,
}
use knos.Printk.Vsnprintf.Strings.{AreShort}
use knos.Printk.Vsnprintf.Enough.{IsServed, conversion-Serves}

-- The call returns all of its text, with the 0 behind it, and stores nothing.
pub record IsWhole (d : Demand) (r : Printed) : Type 0 where
  pub bounded : length r.text ≤ d.characters
  pub ended : r.terminator ≡ some (length r.text)
  pub counted : r.returned ≡ length r.text
  pub nothing_stored : r.stores ≡ []

module _ (longest : Option ℕ) (string_at : ℕ → List ℕ) (brief : AreShort string_at longest) where
  -- A step of the code that goes on with the format `rest`.
  abbrev Steps : Result (List ℕ × Printing) → List ℕ → Demand → Printing → Type 0
  Steps run rest d s = (s' : Printing) × (run ≡ ok (rest, s')) × IsServed d s s'

  specification_run :
      (fmt : List ℕ) (s s' : Printing) (rest : List ℕ) (w p : Parsed)
      → let f = parse_flags fmt no_flags in
        let q = parse_qualifier p.fmt in
        parse_width f.0 f.1 s.args ≡ ok (with_args w s.args)
        → parse_precision (with_args w s.args) ≡ ok (with_args p s.args)
        → dispatch string_at fmt (with_args p s.args) q.0 q.1 s ≡ ok (rest, s')
        → specification string_at fmt s ≡ ok (rest, s')
  unfolding specification
  specification_run fmt s s' rest w p width precision run =
      ap
        (λ r. r >>= λ w. parse_precision w >>= λ p.
          let q = parse_qualifier p.fmt in dispatch string_at fmt p q.0 q.1 s)
        width
      ∙ (ap (λ r. r >>= λ p. let q = parse_qualifier p.fmt in dispatch string_at fmt p q.0 q.1 s)
            precision
          ∙ run)

  specification-Steps :
      (fmt : List ℕ) (s : Printing) (r : List ℕ × Demand)
      → specification_demand longest fmt ≡ ok r
      → r.1.arguments ≤ length s.args
      → Steps (specification string_at fmt s) r.0 r.1 s
  unfolding specification_demand
  specification-Steps fmt s r e enough =
      let f = parse_flags fmt no_flags in
      let (w, width, e1) = >>=-ok (parse_width f.0 f.1 []) _ e in
      let (none_left, any_width) = parse_width-IsFixed f.0 f.1 w width in
      let (p, precision, e2) = >>=-ok (parse_precision w) _ e1 in
      let start : parse_precision (with_args w []) ≡ ok p =
        ap (λ a. parse_precision (with_args w a)) (sym none_left) ∙ precision in
      let (_, any_precision) = parse_precision-IsFixed w p start in
      let q = parse_qualifier p.fmt in
      let (d, demanded, e3) = >>=-ok (conversion_demand longest p q.0 (current q.1)) _ e2 in
      let same : ◌≡◌ {A = List ℕ × Demand} (next q.1, d) r = ok-injective e3 in
      let (s', run, served) =
        conversion-Serves longest string_at brief fmt p q.0 q.1 s (current q.1) refl d demanded
          (omega (arith, ap (λ x. x.1.arguments) same)) in
      subst (λ x. Steps (specification string_at fmt s) x.0 x.1 s) same
        (
          s',
          specification_run fmt s s' (next q.1) w p (any_width s.args) (any_precision s.args) run,
          served,
        )

  character-Steps :
      (c : ℕ) (fmt : List ℕ) (s : Printing) (r : List ℕ × Demand)
      → character_demand longest c fmt ≡ ok r
      → r.1.arguments ≤ length s.args
      → Steps (print_one string_at c fmt s) r.0 r.1 s
  unfolding character_demand print_one
  character-Steps c fmt s r e enough = elim (Bool-cases (c == b'%')) [
    | inl is ↦ rw is (specification-Steps fmt s r (rw is at e) enough)
    | inr plain ↦
        let same : ◌≡◌ {A = List ℕ × Demand} (fmt, record { arguments = 0; characters = 1 }) r =
          ok-injective (rw plain at e) in
        rw plain (
          subst (λ x. Steps (ok (fmt, record s { buffer = put c s.buffer })) x.0 x.1 s) same
            (record s { buffer = put c s.buffer }, refl, (omega arith, put-Grows c s.buffer, refl)))
  ]

  IsServed-both :
      (d e : Demand) (s s' s'' : Printing)
      → IsServed d s s'
      → IsServed e s' s''
      → IsServed (both d e) s s''
  IsServed-both d e s s' s'' (args, grows, same) (args', grows', same') =
      (omega arith, omega arith, same' ∙ same)

  print_loop-safe :
      (fuel : ℕ) (fmt : List ℕ) (s : Printing) (d : Demand)
      → demand longest fuel fmt ≡ ok d
      → d.arguments ≤ length s.args
      → (s' : Printing) × (print_loop string_at fuel fmt s ≡ ok s')
        × (length s'.buffer.text ≤ length s.buffer.text + d.characters)
        × (s'.stores ≡ s.stores)
  unfolding print_loop demand
  print_loop-safe fuel [] s d e enough = (s, refl, omega arith, refl)
  print_loop-safe zero (c ∷ fmt) s d e enough = absurd (cc e)
  print_loop-safe (suc fuel) (c ∷ fmt) s d e enough =
      let (r, here, e1) = >>=-ok (character_demand longest c fmt) _ e in
      let (rest, there, e2) = >>=-ok (demand longest fuel r.0) _ e1 in
      let total : both r.1 rest ≡ d = ok-injective e2 in
      let taken = ap (λ x. x.arguments) total in
      let size = ap (λ x. x.characters) total in
      elim (Bool-cases (s.buffer.room == 0)) [
        | inl full ↦ (s, rw (full, print_loop) refl, omega arith, refl)
        | inr room ↦
            let (s1, run, served) = character-Steps c fmt s r here (omega (arith, taken)) in
            let (s2, run', grows, same) =
              print_loop-safe fuel r.0 s1 rest there (omega (arith, taken, served.0)) in
            (
              s2,
              rw (room, print_loop)
                  (ap (λ x. x >>= λ r. print_loop string_at fuel r.0 r.1) run ∙ run'),
              omega (arith, grows, served.1, size),
              same ∙ served.2,
            )
      ]

  pub vsnprintf_safe :
      (size : ℕ) (fmt args : List ℕ) (d : Demand)
      → demand longest (length fmt) fmt ≡ ok d
      → d.arguments ≤ length args
      → d.characters < size
      → (r : Printed) × (vsnprintf string_at size fmt args ≡ ok r) × IsWhole d r
  unfolding vsnprintf
  vsnprintf_safe size fmt args d e enough fits =
      let positive : (size == 0) ≡ false = ground arith in
      let start : Printing = record {
        buffer = record { text = []; room = size };
        args = args;
        stores = [];
      } in
      let (s, run, grows, same) = print_loop-safe (length fmt) fmt start d e enough in
      let short : ltb (length s.buffer.text) size ≡ true = ground arith in
      (
        finish size s,
        rw positive (ap (λ r. r >>= λ s. ok (finish size s)) run),
        record {
          bounded = omega (arith, grows);
          ended = refl;
          counted = rw short refl;
          nothing_stored = same;
        },
      )
