-- ===== src/Printk/Console/Report.antt =====
-- The printing functions of kernel/printk.c show all of a format whose demand is met.
use knos.Base.{
  Option, ℕ, ◌+◌, ◌≤◌, ◌<◌, ◌≡◌, refl, ap, ◌∙◌, true, false, some, List, [], ok, ◌>>=◌, arith,
  length, take-length, ltb, leb,
}
use knos.Printk.Number.{codes}
use knos.Printk.Vsnprintf.{Printed, vsnprintf}
use knos.Printk.Vsnprintf.Demand.{Demand, demand, character_demand}
use knos.Printk.Vsnprintf.Strings.{AreShort}
use knos.Printk.Vsnprintf.Safe.{vsnprintf_safe}
use knos.Printk.Console.{
  red, white, Geometry, Console, show_text, buffer_size, vcolor_printk, logk_impl, fatalk,
}
use knos.Printk.Console.Cursor.{IsScreen, IsOnScreen, show_text-IsOnScreen}

module _ (font : ℕ → ℕ → ℕ) (g : Geometry) (string_at : ℕ → List ℕ) where
  -- The call returns; the text of the format was shown, all of it; and the cursor is on the screen.
  pub record IsReport (fg bg : ℕ) (fmt args : List ℕ) (s : Console) (s' : Console) (n : ℕ)
      : Type 0 where
    pub printed : Printed
    pub formatted : vsnprintf string_at buffer_size fmt args ≡ ok printed
    pub shown : show_text font g printed.text fg bg s ≡ ok s'
    pub counted : n ≡ length printed.text
    pub on_screen : IsOnScreen g s'

  pub vcolor_printk_run :
      (fg bg : ℕ) (fmt args : List ℕ) (s s' : Console) (r : Printed)
      → vsnprintf string_at buffer_size fmt args ≡ ok r
      → r.terminator ≡ some (length r.text)
      → r.returned ≡ length r.text
      → length r.text < buffer_size
      → show_text font g r.text fg bg s ≡ ok s'
      → vcolor_printk font g string_at fg bg fmt args s ≡ ok (s', length r.text)
  unfolding vcolor_printk
  vcolor_printk_run fg bg fmt args s s' r formatted ended counted short shown =
      let fits : ltb (length r.text) buffer_size ≡ true = ground arith in
      let whole : leb buffer_size (length r.text) ≡ false = ground arith in
      rw (formatted, ended, counted, fits, whole, take-length r.text, shown) refl

  module _ (longest : Option ℕ) (brief : AreShort string_at longest) (screen : IsScreen g) where
    -- A format that asks for no more arguments than there are and for less than the buffer is shown.
    pub vcolor_printk_lem :
        (fg bg : ℕ) (fmt args : List ℕ) (d : Demand) (s : Console)
        → demand longest (length fmt) fmt ≡ ok d
        → d.arguments ≤ length args
        → d.characters < buffer_size
        → IsOnScreen g s
        → (s' : Console) × (n : ℕ) × (vcolor_printk font g string_at fg bg fmt args s ≡ ok (s', n))
          × IsReport fg bg fmt args s s' n
    vcolor_printk_lem fg bg fmt args d s asked enough fits on =
        let (r, formatted, whole) =
          vsnprintf_safe longest string_at brief buffer_size fmt args d asked enough fits in
        let (s', shown, on') = show_text-IsOnScreen font g screen r.text fg bg s on in
        (
          s',
          length r.text,
          vcolor_printk_run fg bg fmt args s s' r formatted whole.ended whole.counted
              (omega (arith, whole.bounded)) shown,
          record {
            printed = r;
            formatted = formatted;
            shown = shown;
            counted = refl;
            on_screen = on';
          },
        )

    logk_impl_lem :
        (fg bg : ℕ) (tag fmt args : List ℕ) (t d : Demand) (s : Console)
        → demand longest (length tag) tag ≡ ok t
        → t.arguments ≡ 0
        → t.characters < buffer_size
        → demand longest (length fmt) fmt ≡ ok d
        → d.arguments ≤ length args
        → d.characters < buffer_size
        → IsOnScreen g s
        → (s1 s2 : Console) × (m n : ℕ) × (logk_impl font g string_at fg bg tag fmt args s
            ≡ ok (s2, m + n))
          × IsReport fg bg tag [] s s1 m
          × IsReport fg bg fmt args s1 s2 n
    unfolding logk_impl
    logk_impl_lem fg bg tag fmt args t d s asked_tag none short asked enough fits on =
        let (s1, m, run, shown) =
          vcolor_printk_lem fg bg tag [] t s asked_tag (omega arith) short on in
        let (s2, n, run', shown') =
          vcolor_printk_lem fg bg fmt args d s1 asked enough fits shown.on_screen in
        (
          s1,
          s2,
          m,
          n,
          ap
                (λ r. r >>= λ t.
                  vcolor_printk font g string_at fg bg fmt args t.0 >>= λ b. ok (b.0, t.1 + b.1))
                run
              ∙ ap (λ r. r >>= λ b. ok (b.0, m + b.1)) run',
          shown,
          shown',
        )

    -- `fatalk` on a format that asks for no more arguments than there are and for less than the buffer
    -- returns: it has shown its tag and behind it all of the formatted text, and it returns their length.
    pub fatalk_lem :
        (fmt args : List ℕ) (d : Demand) (s : Console)
        → demand longest (length fmt) fmt ≡ ok d
        → d.arguments ≤ length args
        → d.characters < buffer_size
        → IsOnScreen g s
        → (s1 s2 : Console) × (m n : ℕ) × (fatalk font g string_at fmt args s ≡ ok (s2, m + n))
          × IsReport red white (codes "[FATL] ") [] s s1 m
          × IsReport red white fmt args s1 s2 n
    unfolding fatalk demand character_demand
    fatalk_lem fmt args d s asked enough fits on =
        logk_impl_lem red white (codes "[FATL] ") fmt args
          (record { arguments = 0; characters = 7 }) d s refl refl (omega arith) asked enough fits
          on
