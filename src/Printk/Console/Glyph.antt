-- ===== src/Printk/Console/Glyph.antt =====
-- The pixels that `put_color_char` of kernel/printk.c leaves on the screen.
use native.Mathlib.Nat.{mul-le-mul_right}
use native.Mathlib.Decide.{dec_lt}
use knos.Base.{
  ℕ, zero, suc, ◌+◌, ◌*◌, ◌≤◌, ◌<◌, ◌≡◌, ◌≢◌, ◌⊎◌, inl, inr, refl, ap, ◌∙◌, Option, none, some,
  List, [], ◌∷◌, bit_and, ok, arith, ◌==◌, if◌then◌else◌,
}
use knos.Base.Word.{shr}
use knos.Base.Int.{pos}
use knos.Printk.Console.{Geometry, Console, put_row, put_rows, put_at, put_color_char}

-- The colour at an offset in the frame buffer: the latest that was written there.
unfoldable pub pixel_at : ℕ → List (ℕ × ℕ) → Option ℕ
pixel_at o [] = none
pixel_at o (p ∷ pixels) = if o == p.0 then some p.1 else pixel_at o pixels

-- The offset of a pixel, by its row and column.
abbrev pub place : Geometry → ℕ → ℕ → ℕ
place g row column = row * g.x_resolution * 4 + column * 4

-- The colour of column `j` of a glyph's row.
abbrev pub glyph_colour : ℕ → ℕ → ℕ → ℕ → ℕ
glyph_colour row j fg bg = if bit_and row (shr 0x80 j) == 0 then bg else fg

-- Two places of a screen of width `w` are the same only in the same row and column.
place_row : (w r s a b : ℕ) → a < w → r < s → r * w * 4 + a * 4 < s * w * 4 + b * 4
place_row w r s a b small below = omega (arith, mul-le-mul_right w below)

pub place-injective :
    (g : Geometry) (r s a b : ℕ)
    → a < g.x_resolution
    → b < g.x_resolution
    → place g r a ≡ place g s b
    → (r ≡ s) × (a ≡ b)
place-injective g r s a b a_small b_small e = elim (dec_lt r s) [
  | yes above ↦ absurd (omega (arith, place_row g.x_resolution r s a b a_small above, e))
  | no not_above ↦ elim (dec_lt s r) [
    | yes below ↦ absurd (omega (arith, place_row g.x_resolution s r b a b_small below, e))
    | no not_below ↦
        let same : r ≡ s = omega arith in
        (same, omega (arith, e, ap (λ t. t * g.x_resolution) same))
  ]
]

pub pixel_at_other :
    (o p colour : ℕ) (pixels : List (ℕ × ℕ))
    → o ≢ p
    → pixel_at o ((p, colour) ∷ pixels) ≡ pixel_at o pixels
unfolding pixel_at
pixel_at_other o p colour pixels ne = ground arith

pub pixel_at_same :
    (o colour : ℕ) (pixels : List (ℕ × ℕ)) → pixel_at o ((o, colour) ∷ pixels) ≡ some colour
unfolding pixel_at
pixel_at_same o colour pixels = ground arith

module _ (font : ℕ → ℕ → ℕ) (g : Geometry) where
  put_row_miss :
      (o left j row offset x fg bg : ℕ) (pixels : List (ℕ × ℕ))
      → ((k : ℕ) → j ≤ k → k < j + left → o ≢ offset + (x + k) * 4)
      → pixel_at o (put_row font g left j row offset x fg bg pixels) ≡ pixel_at o pixels
  unfolding put_row
  put_row_miss o zero j row offset x fg bg pixels other = refl
  put_row_miss o (suc left) j row offset x fg bg pixels other =
      put_row_miss o left (j + 1) row offset x fg bg _
        (λ k le lt. other k (omega arith) (omega arith))
      ∙ pixel_at_other o (offset + (x + j) * 4) _ pixels (other j (omega arith) (omega arith))

  put_row_hit :
      (k left j row offset x fg bg : ℕ) (pixels : List (ℕ × ℕ))
      → j ≤ k
      → k < j + left
      → pixel_at (offset + (x + k) * 4) (put_row font g left j row offset x fg bg pixels)
        ≡ some (glyph_colour row k fg bg)
  unfolding put_row
  put_row_hit k zero j row offset x fg bg pixels from below = absurd (omega arith)
  put_row_hit k (suc left) j row offset x fg bg pixels from below = elim (dec_lt j k) [
    | yes later ↦ put_row_hit k left (j + 1) row offset x fg bg _ (omega arith) (omega arith)
    | no earlier ↦
        let same : k ≡ j = omega arith in
        rw same (
          put_row_miss _ left (j + 1) row offset x fg bg _ (λ k' le lt e. omega arith)
          ∙ pixel_at_same (offset + (x + j) * 4) _ pixels)
  ]

  put_rows_miss :
      (o left i c x y fg bg : ℕ) (pixels : List (ℕ × ℕ))
      → ((r k : ℕ) → i ≤ r → r < i + left → k < 8 → o ≢ place g (y + r) (x + k))
      → pixel_at o (put_rows font g left i c x y fg bg pixels) ≡ pixel_at o pixels
  unfolding put_rows
  put_rows_miss o zero i c x y fg bg pixels other = refl
  put_rows_miss o (suc left) i c x y fg bg pixels other =
      put_rows_miss o left (i + 1) c x y fg bg _
        (λ r k le lt small. other r k (omega arith) (omega arith) small)
      ∙ put_row_miss o 8 0 (font c i) ((y + i) * g.x_resolution * 4) x fg bg pixels
          (λ k le lt. other i k (omega arith) (omega arith) (omega arith))

  put_rows_hit :
      (r k left i c x y fg bg : ℕ) (pixels : List (ℕ × ℕ))
      → x + 8 ≤ g.x_resolution
      → i ≤ r
      → r < i + left
      → k < 8
      → pixel_at (place g (y + r) (x + k)) (put_rows font g left i c x y fg bg pixels)
        ≡ some (glyph_colour (font c r) k fg bg)
  unfolding put_rows
  put_rows_hit r k zero i c x y fg bg pixels across from below small = absurd (omega arith)
  put_rows_hit r k (suc left) i c x y fg bg pixels across from below small = elim (dec_lt i r) [
    | yes later ↦
        put_rows_hit r k left (i + 1) c x y fg bg _ across (omega arith) (omega arith) small
    | no earlier ↦
        let same : r ≡ i = omega arith in
        rw same (
          put_rows_miss (place g (y + i) (x + k)) left (i + 1) c x y fg bg _
            (λ r' k' le lt small' e.
              let rows =
                place-injective g (y + i) (y + r') (x + k) (x + k') (omega arith) (omega arith) e in
              omega (arith, rows.0))
          ∙ put_row_hit k 8 0 (font c i) ((y + i) * g.x_resolution * 4) x fg bg pixels (omega arith)
              (omega arith))
  ]

  -- `put_color_char` at row `y` and column `x`, where the eight columns are on the screen: afterwards
  -- each of the 16 times 8 pixels has the colour of its bit in the font, every other pixel of the screen
  -- has the colour that it had, and the cursor is where it was.
  pub put_color_char_lem :
      (fg bg c x y : ℕ) (s : Console)
      → s.x_position ≡ pos x
      → s.y_position ≡ pos y
      → x + 8 ≤ g.x_resolution
      → (s' : Console) × (put_color_char font g fg bg c s ≡ ok s')
        × (s'.x_position ≡ pos x)
        × (s'.y_position ≡ pos y)
        × ((i j : ℕ)
            → i < 16
            → j < 8
            → pixel_at (place g (y + i) (x + j)) s'.pixels ≡ some (glyph_colour (font c i) j fg bg))
        × ((row column : ℕ)
            → column < g.x_resolution
            → ((i j : ℕ) → i < 16 → j < 8 → (row ≢ y + i) ⊎ (column ≢ x + j))
            → pixel_at (place g row column) s'.pixels ≡ pixel_at (place g row column) s.pixels)
  unfolding put_color_char
  put_color_char_lem fg bg c x y s at_x at_y across = (
    record s { pixels = put_rows font g 16 0 c x y fg bg s.pixels },
    ap (λ p. put_at font g p s.y_position fg bg c s) at_x
        ∙ ap (λ p. put_at font g (pos x) p fg bg c s) at_y,
    at_x,
    at_y,
    λ i j rows columns.
        put_rows_hit i j 16 0 c x y fg bg s.pixels across (omega arith) rows columns,
    λ row column small other.
        put_rows_miss (place g row column) 16 0 c x y fg bg s.pixels (λ i j from rows columns e.
          let at = place-injective g row (y + i) column (x + j) small (omega arith) e in
          elim (other i j rows columns) [ inl above ↦ above at.0 | inr beside ↦ beside at.1 ]),
  )
