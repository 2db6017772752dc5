-- ===== src/Printk/Console/Frame.antt =====
-- What the console draws lies in the frame buffer.
use knos.Base.{
  ap, ℕ, zero, suc, ◌+◌, ◌-◌, ◌*◌, ◌/◌, ◌≤◌, ◌<◌, ◌≡◌, refl, ◌∙◌, inl, inr, Bool, true, false,
  Bool-cases, List, [], ◌∷◌, Result, ok, ◌>>=◌, arith, ◌==◌, if◌then◌else◌,
}
use knos.Base.Int.{ℤ, pos, negsuc, minus, plus, reaches, minus_pos}
use knos.Printk.Console.{
  Geometry, Console, put_color_char, wrap_x, wrap_y, wrap, advance, show_glyph, show_spaces,
  newline, back_y, back_from, back, tab_stop, show_tab, show_char, show_text,
}
use knos.Printk.Console.Pixels.{frame_bytes, AreInside, put_rows-AreInside}

-- A screen of whole characters of 8 by 16 pixels.
pub record IsGrid (g : Geometry) (columns rows : ℕ) : Type 0 where
  pub width : g.x_resolution ≡ 8 * columns
  pub height : g.y_resolution ≡ 16 * rows
  pub char_width : g.x_char_size ≡ 8
  pub char_height : g.y_char_size ≡ 16
  pub some_column : 1 ≤ columns
  pub some_row : 1 ≤ rows

module _ (font : ℕ → ℕ → ℕ) (g : Geometry) (columns rows : ℕ) (grid : IsGrid g columns rows) where
  -- The cursor is at a character's place, and all that was drawn lies in the frame buffer.
  pub record IsInFrame (s : Console) : Type 0 where
    pub column : ℕ
    pub row : ℕ
    pub at_x : s.x_position ≡ pos (8 * column)
    pub at_y : s.y_position ≡ pos (16 * row)
    pub column_inside : column < columns
    pub row_inside : row < rows
    pub drawn : AreInside (frame_bytes g) s.pixels

  -- The call returns, still in the frame.
  abbrev pub Draws : Result Console → Type 0
  Draws r = (s : Console) × (r ≡ ok s) × IsInFrame s

  >>=-Draws :
      (first : Result Console) (rest : Console → Result Console)
      → Draws first
      → ((s : Console) → IsInFrame s → Draws (rest s))
      → Draws (first >>= rest)
  >>=-Draws first rest (s, e, h) k = rw e (k s h)

  put-Draws : (fg bg c : ℕ) (s : Console) → IsInFrame s → Draws (put_color_char font g fg bg c s)
  unfolding put_color_char
  put-Draws fg bg c s h =
      rw (h.at_x, h.at_y)
        (
          _,
          refl,
          record {
            column = h.column;
            row = h.row;
            at_x = refl;
            at_y = refl;
            column_inside = h.column_inside;
            row_inside = h.row_inside;
            drawn =
                put_rows-AreInside font g 16 0 c (8 * h.column) (16 * h.row) fg bg s.pixels
                  (omega (arith, grid.width, h.column_inside))
                  (omega (arith, grid.height, h.row_inside)) h.drawn;
          },
        )

  before_border : (n z : ℕ) (p : ℤ) → p ≡ pos z → reaches p n ≡ false → z < n
  before_border n z p at e = ground (arith, rw at at e)

  next_row :
      (s : Console) (row : ℕ)
      → s.y_position ≡ pos (16 * row)
      → plus s.y_position g.y_char_size ≡ pos (16 * (row + 1))
  next_row s row at_y =
      ap (λ y. plus y g.y_char_size) at_y ∙ ap pos (omega (arith, grid.char_height))

  -- From a character's place, even behind the last column or row, the checks of the borders lead back
  -- into the frame.
  wrap_y-IsInFrame :
      (s : Console) (column row : ℕ)
      → s.x_position ≡ pos (8 * column)
      → s.y_position ≡ pos (16 * row)
      → column < columns
      → AreInside (frame_bytes g) s.pixels
      → IsInFrame (wrap_y font g s)
  unfolding wrap_y
  wrap_y-IsInFrame s column row at_x at_y inside drawn =
      elim (Bool-cases (reaches s.y_position g.y_resolution)) [
        | inl below ↦ rw below (record {
          column = column;
          row = 0;
          at_x = at_x;
          at_y = refl;
          column_inside = inside;
          row_inside = grid.some_row;
          drawn = drawn;
        })
        | inr within ↦
            let above = before_border g.y_resolution (16 * row) s.y_position at_y within in
            rw within (record {
              column = column;
              row = row;
              at_x = at_x;
              at_y = at_y;
              column_inside = inside;
              row_inside = omega (arith, above, grid.height);
              drawn = drawn;
            })
      ]

  wrap-IsInFrame :
      (s : Console) (column row : ℕ)
      → s.x_position ≡ pos (8 * column)
      → s.y_position ≡ pos (16 * row)
      → AreInside (frame_bytes g) s.pixels
      → IsInFrame (wrap font g s)
  unfolding wrap_x
  wrap-IsInFrame s column row at_x at_y drawn =
      elim (Bool-cases (reaches s.x_position g.x_resolution)) [
        | inl right ↦
            let s' : Console = record s {
              x_position = pos 0;
              y_position = plus s.y_position g.y_char_size;
            } in
            rw right
              (wrap_y-IsInFrame s' 0 (row + 1) refl (next_row s row at_y) grid.some_column drawn)
        | inr within ↦
            let before = before_border g.x_resolution (8 * column) s.x_position at_x within in
            rw within
              (wrap_y-IsInFrame s column row at_x at_y (omega (arith, before, grid.width)) drawn)
      ]

  show_glyph-Draws : (fg bg c : ℕ) (s : Console) → IsInFrame s → Draws (show_glyph font g fg bg c s)
  unfolding show_glyph
  show_glyph-Draws fg bg c s h = >>=-Draws _ _ (put-Draws fg bg c s h) (λ s' h'.
      let right : plus s'.x_position g.x_char_size ≡ pos (8 * (h'.column + 1)) =
        ap (λ x. plus x g.x_char_size) h'.at_x ∙ ap pos (omega (arith, grid.char_width)) in
      (_, refl, wrap-IsInFrame (advance font g s') (h'.column + 1) h'.row right h'.at_y h'.drawn))

  show_spaces-Draws :
      (line fg bg : ℕ) (s : Console) → IsInFrame s → Draws (show_spaces font g line fg bg s)
  unfolding show_spaces
  show_spaces-Draws zero fg bg s h = (s, refl, h)
  show_spaces-Draws (suc line) fg bg s h =
      >>=-Draws _ _ (show_glyph-Draws fg bg b' ' s h) (λ s' h'. show_spaces-Draws line fg bg s' h')

  show_tab-Draws :
      (p : ℤ) (x fg bg : ℕ) (s : Console)
      → p ≡ pos x
      → IsInFrame s
      → Draws (show_tab font g p fg bg s)
  show_tab-Draws p x fg bg s at h =
      let some_width : (g.x_char_size == 0) ≡ false = ground (arith, grid.char_width) in
      rw (at, some_width) (show_spaces-Draws (tab_stop font g (x / g.x_char_size)) fg bg s h)

  -- A row up, or the last one.
  back_y-row :
      (p : ℤ) (row : ℕ)
      → p ≡ pos (16 * row)
      → row < rows
      → (r : ℕ) × (back_y font g (minus p g.y_char_size) ≡ pos (16 * r)) × (r < rows)
  back_y-row p zero at inside =
      let top : minus p g.y_char_size ≡ negsuc 15 =
        ap (λ y. minus y g.y_char_size) at ∙ ap (minus (pos 0)) grid.char_height in
      let last : minus (pos g.y_resolution) g.y_char_size ≡ pos (16 * (rows - 1)) =
        minus_pos g.y_resolution g.y_char_size
          (omega (arith, grid.height, grid.char_height, grid.some_row))
        ∙ ap pos (omega (arith, grid.height, grid.char_height, grid.some_row)) in
      (rows - 1, ap (back_y font g) top ∙ last, omega (arith, grid.some_row))
  back_y-row p (suc row) at inside =
      let up : minus p g.y_char_size ≡ pos (16 * row) =
        ap (λ y. minus y g.y_char_size) at
        ∙ (minus_pos (16 * suc row) g.y_char_size (omega (arith, grid.char_height))
            ∙ ap pos (omega (arith, grid.char_height))) in
      (row, ap (back_y font g) up, omega arith)

  back_from-IsInFrame :
      (p : ℤ) (column : ℕ) (s : Console)
      → p ≡ pos (8 * column)
      → column < columns
      → IsInFrame s
      → IsInFrame (back_from font g (minus p g.x_char_size) s)
  back_from-IsInFrame p zero s at inside h =
      let left : minus p g.x_char_size ≡ negsuc 7 =
        ap (λ x. minus x g.x_char_size) at ∙ ap (minus (pos 0)) grid.char_width in
      let last : minus (pos g.x_resolution) g.x_char_size ≡ pos (8 * (columns - 1)) =
        minus_pos g.x_resolution g.x_char_size
          (omega (arith, grid.width, grid.char_width, grid.some_column))
        ∙ ap pos (omega (arith, grid.width, grid.char_width, grid.some_column)) in
      let (r, up, r_inside) = back_y-row s.y_position h.row h.at_y h.row_inside in
      rw left (record {
        column = columns - 1;
        row = r;
        at_x = last;
        at_y = up;
        column_inside = omega (arith, grid.some_column);
        row_inside = r_inside;
        drawn = h.drawn;
      })
  back_from-IsInFrame p (suc column) s at inside h =
      let left : minus p g.x_char_size ≡ pos (8 * column) =
        ap (λ x. minus x g.x_char_size) at
        ∙ (minus_pos (8 * suc column) g.x_char_size (omega (arith, grid.char_width))
            ∙ ap pos (omega (arith, grid.char_width))) in
      rw left (record {
        column = column;
        row = h.row;
        at_x = refl;
        at_y = h.at_y;
        column_inside = omega arith;
        row_inside = h.row_inside;
        drawn = h.drawn;
      })

  -- The cursor of `\b`.
  back-IsInFrame : (s : Console) → IsInFrame s → IsInFrame (back font g s)
  unfolding back
  back-IsInFrame s h = back_from-IsInFrame s.x_position h.column s h.at_x h.column_inside h

  if-Draws :
      (test : Bool) (a b : Result Console) → Draws a → Draws b → Draws (if test then a else b)
  if-Draws true a b h k = h
  if-Draws false a b h k = k

  show_char-Draws : (fg bg c : ℕ) (s : Console) → IsInFrame s → Draws (show_char font g fg bg c s)
  unfolding show_char
  show_char-Draws fg bg c s h =
      if-Draws (c == 10) _ _
        (
          _,
          refl,
          wrap-IsInFrame (newline font g s) 0 (h.row + 1) refl (next_row s h.row h.at_y) h.drawn,
        )
        (if-Draws (c == 8) _ _
          (>>=-Draws _ _ (put-Draws fg bg b' ' (back font g s) (back-IsInFrame s h))
            (λ s' h'. (_, refl, wrap-IsInFrame s' h'.column h'.row h'.at_x h'.at_y h'.drawn)))
          (if-Draws (c == 9) _ _ (show_tab-Draws s.x_position (8 * h.column) fg bg s h.at_x h)
            (show_glyph-Draws fg bg c s h)))

  -- On a screen of whole characters of 8 by 16 pixels, with the cursor at a character's place and what
  -- was drawn so far inside the frame buffer, showing any text draws inside the frame buffer only, and
  -- leaves the cursor at a character's place.
  pub show_text-IsInFrame :
      (cs : List ℕ) (fg bg : ℕ) (s : Console) → IsInFrame s → Draws (show_text font g cs fg bg s)
  unfolding show_text
  show_text-IsInFrame [] fg bg s h = (s, refl, h)
  show_text-IsInFrame (c ∷ cs) fg bg s h =
      >>=-Draws _ _ (show_char-Draws fg bg c s h) (λ s' h'. show_text-IsInFrame cs fg bg s' h')
