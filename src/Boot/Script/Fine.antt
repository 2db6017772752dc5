-- ===== src/Boot/Script/Fine.antt =====
-- Calls of the printing functions that return, with all that they draw in the frame buffer.
use knos.Base.{
  ◌+◌, ℕ, ◌<◌, ◌≡◌, refl, ap, ◌∙◌, Bool, true, false, ◌&&◌, Option, some, List, [], ◌∷◌, Result, ok,
  fault, halted, no_fuel, ◌>>=◌, arith, length, ltb, leb,
}
use knos.Printk.Number.{codes}
use knos.Printk.Vsnprintf.{Printed, vsnprintf}
use knos.Printk.Vsnprintf.Demand.{Demand, demand, character_demand}
use knos.Printk.Vsnprintf.Strings.{AreShort}
use knos.Printk.Vsnprintf.Safe.{vsnprintf_safe}
use knos.Printk.Console.{
  Geometry, Console, white, black, red, yellow, buffer_size, vcolor_printk, logk_impl, printk, logk,
  warnk, errk, fatalk,
}
use knos.Printk.Console.Report.{vcolor_printk_run}
use knos.Printk.Console.Frame.{IsGrid, IsInFrame, show_text-IsInFrame}
use knos.Boot.Script.{
  Call, printk_call, logk_call, warnk_call, errk_call, fatalk_call, color_printk_call, say, say_all,
}

-- The demand of a format is met by `n` arguments and `printk_buf`.
abbrev pub is_met : Result Demand → ℕ → Bool
is_met (ok d) n = leb d.arguments n && ltb d.characters buffer_size
is_met fault n = false
is_met halted n = false
is_met no_fuel n = false

module _ (longest : Option ℕ) where
  abbrev pub call_met : Call → Bool
  call_met (printk_call fmt args) = is_met (demand longest (length fmt) fmt) (length args)
  call_met (logk_call fmt args) = is_met (demand longest (length fmt) fmt) (length args)
  call_met (warnk_call fmt args) = is_met (demand longest (length fmt) fmt) (length args)
  call_met (errk_call fmt args) = is_met (demand longest (length fmt) fmt) (length args)
  call_met (fatalk_call fmt args) = is_met (demand longest (length fmt) fmt) (length args)
  call_met (color_printk_call fg bg fmt args) =
      is_met (demand longest (length fmt) fmt) (length args)

  unfoldable pub calls_met : List Call → Bool
  calls_met [] = true
  calls_met (c ∷ cs) = call_met c && calls_met cs

module _ (font : ℕ → ℕ → ℕ) (g : Geometry) (columns rows : ℕ) (grid : IsGrid g columns rows)
    (string_at : ℕ → List ℕ) where
  abbrev pub Draws : Result Console → Type 0
  Draws r = (s : Console) × (r ≡ ok s) × IsInFrame font g columns rows grid s

  abbrev Prints : Result (Console × ℕ) → Type 0
  Prints r = (s : Console) × (n : ℕ) × (r ≡ ok (s, n)) × IsInFrame font g columns rows grid s

  -- A call whose text is known.
  pub formatted-Prints :
      (fg bg : ℕ) (fmt args : List ℕ) (r : Printed) (s : Console)
      → vsnprintf string_at buffer_size fmt args ≡ ok r
      → r.terminator ≡ some (length r.text)
      → r.returned ≡ length r.text
      → length r.text < buffer_size
      → IsInFrame font g columns rows grid s
      → Prints (vcolor_printk font g string_at fg bg fmt args s)
  formatted-Prints fg bg fmt args r s formatted ended counted small is =
      let (s', shown, is') = show_text-IsInFrame font g columns rows grid r.text fg bg s is in
      (
        s',
        length r.text,
        vcolor_printk_run font g string_at fg bg fmt args s s' r formatted ended counted small
            shown,
        is',
      )

  Prints-Draws : (r : Result (Console × ℕ)) → Prints r → Draws (r >>= λ x. ok x.0)
  Prints-Draws r (s, n, e, is) = (s, ap (λ r. r >>= λ x. ok x.0) e, is)

  module _ (longest : Option ℕ) (brief : AreShort string_at longest) where
    met-Prints :
        (fg bg : ℕ) (fmt args : List ℕ) (r : Result Demand) (s : Console)
        → demand longest (length fmt) fmt ≡ r
        → is_met r (length args) ≡ true
        → IsInFrame font g columns rows grid s
        → Prints (vcolor_printk font g string_at fg bg fmt args s)
    met-Prints fg bg fmt args (ok d) s asked met is =
        let (r, formatted, whole) =
          vsnprintf_safe longest string_at brief buffer_size fmt args d asked (ground arith)
            (ground arith) in
        formatted-Prints fg bg fmt args r s formatted whole.ended whole.counted
          (ground (arith, whole.bounded)) is
    met-Prints fg bg fmt args fault s asked met is = absurd (cc met)
    met-Prints fg bg fmt args halted s asked met is = absurd (cc met)
    met-Prints fg bg fmt args no_fuel s asked met is = absurd (cc met)

    -- A tag, and a format behind it.
    logk_impl-Prints :
        (fg bg : ℕ) (tag fmt args : List ℕ) (s : Console)
        → is_met (demand longest (length tag) tag) 0 ≡ true
        → is_met (demand longest (length fmt) fmt) (length args) ≡ true
        → IsInFrame font g columns rows grid s
        → Prints (logk_impl font g string_at fg bg tag fmt args s)
    unfolding logk_impl
    logk_impl-Prints fg bg tag fmt args s tag_met met is =
        let (s1, m, run, is1) = met-Prints fg bg tag [] _ s refl tag_met is in
        let (s2, n, run', is2) = met-Prints fg bg fmt args _ s1 refl met is1 in
        (
          s2,
          _,
          ap
                (λ r. r >>= λ t.
                  vcolor_printk font g string_at fg bg fmt args t.0 >>= λ b. ok (b.0, t.1 + b.1))
                run
              ∙ ap (λ r. r >>= λ b. ok (b.0, m + b.1)) run',
          is2,
        )

    pub say-Draws :
        (c : Call) (s : Console)
        → call_met longest c ≡ true
        → IsInFrame font g columns rows grid s
        → Draws (say font g string_at c s)
    unfolding say printk logk warnk errk fatalk demand character_demand
    say-Draws (printk_call fmt args) s met is =
        Prints-Draws _ (met-Prints white black fmt args _ s refl met is)
    say-Draws (color_printk_call fg bg fmt args) s met is =
        Prints-Draws _ (met-Prints fg bg fmt args _ s refl met is)
    say-Draws (logk_call fmt args) s met is =
        Prints-Draws _ (logk_impl-Prints white black (codes "[INFO] ") fmt args s refl met is)
    say-Draws (warnk_call fmt args) s met is =
        Prints-Draws _ (logk_impl-Prints yellow black (codes "[WARN] ") fmt args s refl met is)
    say-Draws (errk_call fmt args) s met is =
        Prints-Draws _ (logk_impl-Prints red black (codes "[ERR]  ") fmt args s refl met is)
    say-Draws (fatalk_call fmt args) s met is =
        Prints-Draws _ (logk_impl-Prints red white (codes "[FATL] ") fmt args s refl met is)

    pub say_all-Draws :
        (cs : List Call) (s : Console)
        → calls_met longest cs ≡ true
        → IsInFrame font g columns rows grid s
        → Draws (say_all font g string_at cs s)
    unfolding say_all calls_met
    say_all-Draws [] s met is = (s, refl, is)
    say_all-Draws (c ∷ cs) s met is =
        let (s', run, is') = say-Draws c s (ground arith) is in
        let (s'', rest, is'') = say_all-Draws cs s' (ground arith) is' in
        (s'', ap (λ r. r >>= λ s'. say_all font g string_at cs s') run ∙ rest, is'')
