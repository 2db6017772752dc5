-- ===== src/Printk/Console.antt =====
-- The console of kernel/printk.c: characters are drawn at a cursor, and control characters move it.
pub mod Cursor
pub mod Report
pub mod Pixels
pub mod Frame
pub mod Glyph
pub mod Legible
pub mod Readback
mod Tests
use knos.Base.{
  take, ℕ, zero, suc, ◌+◌, ◌-◌, ◌*◌, ◌/◌, ◌%◌, Bool, true, false, Option, none, some, List, [], ◌∷◌,
  bit_and, Result, ok, fault, ◌>>=◌, ltb, leb, ◌==◌, if◌then◌else◌,
}
use knos.Base.Word.{shr}
use knos.Base.Int.{ℤ, pos, negsuc, minus, plus, reaches}
use knos.Printk.Number.{codes}
use knos.Printk.Vsnprintf.{Printed, vsnprintf}

-- The part of `struct position_struct` that printing only reads.
pub record Geometry : Type 0 where
  pub x_resolution : ℕ
  pub y_resolution : ℕ
  pub x_char_size : ℕ
  pub y_char_size : ℕ

-- The cursor, and the pixels written so far, the latest first: the offset in bytes from
-- `frame_buffer_addr`, and the colour.
pub record Console : Type 0 where
  pub x_position : ℤ
  pub y_position : ℤ
  pub pixels : List (ℕ × ℕ)

abbrev pub white : ℕ
white = 0xFFFFFFFF

abbrev pub black : ℕ
black = 0xFF000000

abbrev pub red : ℕ
red = 0xFFFF0000

abbrev pub yellow : ℕ
yellow = 0xFFFFFF00

-- `sizeof(printk_buf)`
abbrev pub buffer_size : ℕ
buffer_size = 4096

-- `font c i` is row `i` of the glyph of `c`, `font_ascii[c][i]`.
module _ (font : ℕ → ℕ → ℕ) (g : Geometry) where
  -- `left` pixels of a row, from column `j`.
  unfoldable pub put_row : ℕ → ℕ → ℕ → ℕ → ℕ → ℕ → ℕ → List (ℕ × ℕ) → List (ℕ × ℕ)
  put_row zero j row offset x fg bg pixels = pixels
  put_row (suc left) j row offset x fg bg pixels =
      put_row left (j + 1) row offset x fg bg
        ((offset + (x + j) * 4, if bit_and row (shr 0x80 j) == 0 then bg else fg) ∷ pixels)

  unfoldable pub put_rows : ℕ → ℕ → ℕ → ℕ → ℕ → ℕ → ℕ → List (ℕ × ℕ) → List (ℕ × ℕ)
  put_rows zero i c x y fg bg pixels = pixels
  put_rows (suc left) i c x y fg bg pixels =
      put_rows left (i + 1) c x y fg bg
        (put_row 8 0 (font c i) ((y + i) * g.x_resolution * 4) x fg bg pixels)

  -- A cursor left of or above the screen would write before the frame buffer.
  abbrev pub put_at : ℤ → ℤ → ℕ → ℕ → ℕ → Console → Result Console
  put_at (pos x) (pos y) fg bg c s = ok (record s { pixels = put_rows 16 0 c x y fg bg s.pixels })
  put_at (pos x) (negsuc y) fg bg c s = fault
  put_at (negsuc x) y fg bg c s = fault

  unfoldable pub put_color_char : ℕ → ℕ → ℕ → Console → Result Console
  put_color_char fg bg c s = put_at s.x_position s.y_position fg bg c s

  -- The checks of the borders that end each round.
  unfoldable pub wrap_x : Console → Console
  wrap_x s =
      if reaches s.x_position g.x_resolution
      then record s { x_position = pos 0; y_position = plus s.y_position g.y_char_size }
      else s

  unfoldable pub wrap_y : Console → Console
  wrap_y s = if reaches s.y_position g.y_resolution then record s { y_position = pos 0 } else s

  abbrev pub wrap : Console → Console
  wrap s = wrap_y (wrap_x s)

  abbrev pub advance : Console → Console
  advance s = record s { x_position = plus s.x_position g.x_char_size }

  -- A character that is drawn, and one round of a tab.
  unfoldable pub show_glyph : ℕ → ℕ → ℕ → Console → Result Console
  show_glyph fg bg c s = put_color_char fg bg c s >>= λ s'. ok (wrap (advance s'))

  unfoldable pub show_spaces : ℕ → ℕ → ℕ → Console → Result Console
  show_spaces zero fg bg s = ok s
  show_spaces (suc line) fg bg s = show_glyph fg bg b' ' s >>= λ s'. show_spaces line fg bg s'

  abbrev pub newline : Console → Console
  newline s = record s { x_position = pos 0; y_position = plus s.y_position g.y_char_size }

  -- The cursor of `\b`.
  abbrev pub back_y : ℤ → ℤ
  back_y (pos y) = pos y
  back_y (negsuc y) = minus (pos g.y_resolution) g.y_char_size

  abbrev pub back_from : ℤ → Console → Console
  back_from (pos x) s = record s { x_position = pos x }
  back_from (negsuc x) s = record s {
    x_position = minus (pos g.x_resolution) g.x_char_size;
    y_position = back_y (minus s.y_position g.y_char_size);
  }

  unfoldable pub back : Console → Console
  back s = back_from (minus s.x_position g.x_char_size) s

  -- `((current_char_x + 8) & ~(8 - 1)) - current_char_x`
  abbrev pub tab_stop : ℕ → ℕ
  tab_stop current_char_x = (current_char_x + 8) / 8 * 8 - current_char_x

  -- A tab divides by the width of a character.
  abbrev pub show_tab : ℤ → ℕ → ℕ → Console → Result Console
  show_tab (negsuc x) fg bg s = fault
  show_tab (pos x) fg bg s =
      if g.x_char_size == 0 then fault else show_spaces (tab_stop (x / g.x_char_size)) fg bg s

  -- All rounds of the loop for one character of the buffer.
  unfoldable pub show_char : ℕ → ℕ → ℕ → Console → Result Console
  show_char fg bg c s =
      if c == 10
      then ok (wrap (newline s))
      else if c == 8
      then (put_color_char fg bg b' ' (back s) >>= λ s'. ok (wrap s'))
      else if c == 9
      then show_tab s.x_position fg bg s
      else show_glyph fg bg c s

  unfoldable pub show_text : List ℕ → ℕ → ℕ → Console → Result Console
  show_text [] fg bg s = ok s
  show_text (c ∷ cs) fg bg s = show_char fg bg c s >>= λ s'. show_text cs fg bg s'

  -- The 0 of `vsnprintf` must stand inside `printk_buf`.
  abbrev pub inside_buffer : Option ℕ → Result Bool
  inside_buffer none = ok true
  inside_buffer (some i) = if ltb i buffer_size then ok true else fault

  abbrev shown_length : ℕ → ℕ
  shown_length i = if leb buffer_size i then buffer_size - 1 else i

  module _ (string_at : ℕ → List ℕ) where
    -- The console behind the call, and the number returned.
    unfoldable pub vcolor_printk : ℕ → ℕ → List ℕ → List ℕ → Console → Result (Console × ℕ)
    vcolor_printk fg bg fmt args s = vsnprintf string_at buffer_size fmt args >>= λ r.
        inside_buffer r.terminator >>= λ fits.
        let i = shown_length r.returned in show_text (take i r.text) fg bg s >>= λ s'. ok (s', i)

    abbrev pub color_printk : ℕ → ℕ → List ℕ → List ℕ → Console → Result (Console × ℕ)
    color_printk fg bg fmt args s = vcolor_printk fg bg fmt args s

    -- The tag of a log line is a format of its own, with no arguments. No count is negative.
    unfoldable pub logk_impl : ℕ → ℕ → List ℕ → List ℕ → List ℕ → Console → Result (Console × ℕ)
    logk_impl fg bg tag fmt args s = vcolor_printk fg bg tag [] s >>= λ t.
        vcolor_printk fg bg fmt args t.0 >>= λ b. ok (b.0, t.1 + b.1)

    unfoldable pub printk : List ℕ → List ℕ → Console → Result (Console × ℕ)
    printk fmt args s = vcolor_printk white black fmt args s

    unfoldable pub logk : List ℕ → List ℕ → Console → Result (Console × ℕ)
    logk fmt args s = logk_impl white black (codes "[INFO] ") fmt args s

    unfoldable pub warnk : List ℕ → List ℕ → Console → Result (Console × ℕ)
    warnk fmt args s = logk_impl yellow black (codes "[WARN] ") fmt args s

    unfoldable pub errk : List ℕ → List ℕ → Console → Result (Console × ℕ)
    errk fmt args s = logk_impl red black (codes "[ERR]  ") fmt args s

    unfoldable pub fatalk : List ℕ → List ℕ → Console → Result (Console × ℕ)
    fatalk fmt args s = logk_impl red white (codes "[FATL] ") fmt args s
