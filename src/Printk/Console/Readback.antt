-- ===== src/Printk/Console/Readback.antt =====
-- The printing functions of kernel/printk.c with the font of kernel/font.h: what is formatted is what
-- stands on the screen.
use knos.Base.{
  Option, ℕ, ◌+◌, ◌*◌, ◌≤◌, ◌<◌, ◌≡◌, ◌≢◌, sym, ◌∙◌, List, ok, ok-injective, arith, length,
}
use knos.Base.Int.{pos}
use knos.Printk.Font.{font_row}
use knos.Printk.Vsnprintf.{Printed, vsnprintf}
use knos.Printk.Vsnprintf.Demand.{Demand, demand}
use mathlib.Core.Path.{subst}
use knos.Printk.Vsnprintf.Strings.{AreShort}
use knos.Printk.Vsnprintf.Safe.{IsWhole, vsnprintf_safe}
use knos.Printk.Console.{Geometry, Console, buffer_size, vcolor_printk}
use knos.Printk.Console.Report.{vcolor_printk_run}
use knos.Printk.Console.Legible.{read_text, ArePrintable, show_text-read_text}

-- `vcolor_printk` in two different colours, with a format that asks for no more arguments than there
-- are and for less than the buffer, whose text consists of printable ASCII characters and fits between
-- the cursor and the end of its row: the call returns the length of the text, and whoever reads the
-- glyphs from the cursor's place on, by the font, reads the text that vsnprintf formatted.
pub vcolor_printk-read_text :
    (g : Geometry) (longest : Option ℕ) (string_at : ℕ → List ℕ) (fg bg : ℕ) (fmt args : List ℕ)
    (d : Demand) (r : Printed) (x y : ℕ) (s : Console)
    → AreShort string_at longest
    → demand longest (length fmt) fmt ≡ ok d
    → d.arguments ≤ length args
    → d.characters < buffer_size
    → vsnprintf string_at buffer_size fmt args ≡ ok r
    → ArePrintable r.text
    → fg ≢ bg
    → g.x_char_size ≡ 8
    → s.x_position ≡ pos x
    → s.y_position ≡ pos y
    → x + 8 * length r.text ≤ g.x_resolution
    → y < g.y_resolution
    → (s' : Console) × (vcolor_printk font_row g string_at fg bg fmt args s
        ≡ ok (s', length r.text))
      × (read_text g fg y x (length r.text) s'.pixels ≡ r.text)
vcolor_printk-read_text g longest string_at fg bg fmt args d r x y s brief asked enough fits
      formatted printable ne width at_x at_y across down =
    let (r', formatted', whole) =
      vsnprintf_safe longest string_at brief buffer_size fmt args d asked enough fits in
    let same : r' ≡ r = ok-injective (sym formatted' ∙ formatted) in
    let whole = subst (λ r. IsWhole d r) same whole in
    let (s', shown, text, _) =
      show_text-read_text g fg bg ne width r.text x y s printable (λ _. (at_x, at_y)) across down in
    (
      s',
      vcolor_printk_run font_row g string_at fg bg fmt args s s' r formatted whole.ended
          whole.counted (omega (arith, whole.bounded)) shown,
      text,
    )
