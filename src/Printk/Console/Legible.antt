-- ===== src/Printk/Console/Legible.antt =====
-- What kernel/printk.c draws can be read from the screen.
use knos.Base.{
  ℕ, zero, suc, ◌+◌, ◌*◌, ◌≤◌, ◌<◌, ◌≡◌, ◌≢◌, inl, inr, refl, ap, ◌∙◌, Bool, false, Bool-cases,
  Option, none, some, List, [], ◌∷◌, bit_and, ok, ◌>>=◌, arith, length, ◌==◌, if◌then◌else◌,
}
use knos.Base.Word.{shr}
use knos.Base.Int.{ℤ, pos, plus, reaches}
use knos.Printk.Font.{font_row}
use knos.Printk.Font.Glyphs.{
  row_from, glyph_from, character_of, row_bit, row_from-row_bit, IsPrintable, character_of-font_row,
  row_from_cong, glyph_from_cong, font_row_bound,
}
use knos.Printk.Console.{
  Geometry, Console, wrap_x, wrap_y, wrap, advance, show_glyph, show_char, show_text,
}
use knos.Printk.Console.Glyph.{pixel_at, place, glyph_colour, put_color_char_lem}

abbrev is_colour : ℕ → Option ℕ → Bool
is_colour fg none = false
is_colour fg (some colour) = colour == fg

module _ (g : Geometry) (fg : ℕ) where
  abbrev pub pixel_test : ℕ → ℕ → List (ℕ × ℕ) → Bool
  pixel_test row column pixels = is_colour fg (pixel_at (place g row column) pixels)

  -- The character whose glyph, in colour `fg`, starts at a row and a column of the screen.
  unfoldable pub read_char : ℕ → ℕ → List (ℕ × ℕ) → ℕ
  read_char y x pixels =
      character_of
        (glyph_from 16 0 (λ i. row_from 8 0 (λ j. pixel_test (y + i) (x + j) pixels) 0) 0)

  unfoldable pub read_text : ℕ → ℕ → ℕ → List (ℕ × ℕ) → List ℕ
  read_text y x zero pixels = []
  read_text y x (suc n) pixels = read_char y x pixels ∷ read_text y (x + 8) n pixels

-- A pixel of a glyph is of the foreground's colour just if its bit is set.
is_colour-glyph_colour :
    (row j fg bg : ℕ) → fg ≢ bg → is_colour fg (some (glyph_colour row j fg bg)) ≡ row_bit row j
is_colour-glyph_colour row j fg bg ne = elim (Bool-cases (bit_and row (shr 0x80 j) == 0)) [
  | inl clear ↦ rw clear (ground arith)
  | inr set ↦ rw set (ground arith)
]

module _ (g : Geometry) (fg : ℕ) where
  read_char_cong :
      (y x : ℕ) (pixels pixels' : List (ℕ × ℕ))
      → ((i j : ℕ)
          → i < 16
          → j < 8
          → pixel_at (place g (y + i) (x + j)) pixels ≡ pixel_at (place g (y + i) (x + j)) pixels')
      → read_char g fg y x pixels ≡ read_char g fg y x pixels'
  unfolding read_char
  read_char_cong y x pixels pixels' same = ap character_of (
      glyph_from_cong 16 0 _ _ 0 (λ i _ rows.
        row_from_cong 8 0 _ _ 0 (λ j _ columns. ap (is_colour fg) (same i j rows columns))))

  read_char_lem :
      (c y x bg : ℕ) (pixels : List (ℕ × ℕ))
      → IsPrintable c
      → fg ≢ bg
      → ((i j : ℕ)
          → i < 16
          → j < 8
          → pixel_at (place g (y + i) (x + j)) pixels ≡ some (glyph_colour (font_row c i) j fg bg))
      → read_char g fg y x pixels ≡ c
  unfolding read_char
  read_char_lem c y x bg pixels printable ne drawn =
      ap character_of (
        glyph_from_cong 16 0 _ (font_row c) 0 (λ i _ rows.
          row_from_cong 8 0 _ (row_bit (font_row c i)) 0 (λ j _ columns.
            ap (is_colour fg) (drawn i j rows columns)
            ∙ is_colour-glyph_colour (font_row c i) j fg bg ne)
          ∙ row_from-row_bit (font_row c i) (font_row_bound c i)))
      ∙ character_of-font_row c printable

unfoldable pub ArePrintable : List ℕ → Type 0
ArePrintable [] = 0 ≤ 0
ArePrintable (c ∷ cs) = IsPrintable c × ArePrintable cs

module _ (font : ℕ → ℕ → ℕ) (g : Geometry) where
  -- The checks of the borders draw nothing.
  wrap_y_pixels : (s : Console) → (wrap_y font g s).pixels ≡ s.pixels
  unfolding wrap_y
  wrap_y_pixels s = elim (Bool-cases (reaches s.y_position g.y_resolution)) [
    | inl below ↦ rw below refl
    | inr within ↦ rw within refl
  ]

  wrap_x_pixels : (s : Console) → (wrap_x font g s).pixels ≡ s.pixels
  unfolding wrap_x
  wrap_x_pixels s = elim (Bool-cases (reaches s.x_position g.x_resolution)) [
    | inl right ↦ rw right refl
    | inr within ↦ rw within refl
  ]

  -- Inside the screen they leave the cursor.
  inside-reaches : (z n : ℕ) (p : ℤ) → p ≡ pos z → z < n → reaches p n ≡ false
  inside-reaches z n p at inside = rw at (ground arith)

  wrap_inside :
      (x y : ℕ) (s : Console)
      → s.x_position ≡ pos x
      → s.y_position ≡ pos y
      → x < g.x_resolution
      → y < g.y_resolution
      → wrap font g s ≡ s
  unfolding wrap_x wrap_y
  wrap_inside x y s at_x at_y across down =
      ap
        (λ b. wrap_y font g (
          if b
          then record s { x_position = pos 0; y_position = plus s.y_position g.y_char_size }
          else s))
        (inside-reaches x g.x_resolution s.x_position at_x across)
      ∙ ap (λ b. if b then record s { y_position = pos 0 } else s)
          (inside-reaches y g.y_resolution s.y_position at_y down)

  printable-show_char :
      (fg bg c : ℕ) (s : Console)
      → IsPrintable c
      → show_char font g fg bg c s ≡ show_glyph font g fg bg c s
  unfolding show_char
  printable-show_char fg bg c s printable =
      let not_newline : (c == 10) ≡ false = ground arith in
      let not_back : (c == 8) ≡ false = ground arith in
      let not_tab : (c == 9) ≡ false = ground arith in rw (not_newline, not_back, not_tab) refl

module _ (g : Geometry) (fg bg : ℕ) (ne : fg ≢ bg) (width : g.x_char_size ≡ 8) where
  -- A character that is drawn can be read, the pixels left of it stay, and unless it is the last that
  -- fits the row, the cursor is behind it.
  record IsShown (c x y : ℕ) (s s' : Console) : Type 0 where
    shown : read_char g fg y x s'.pixels ≡ c
    left :
        (row column : ℕ)
        → column < x
        → pixel_at (place g row column) s'.pixels ≡ pixel_at (place g row column) s.pixels
    behind : x + 8 < g.x_resolution → (s'.x_position ≡ pos (x + 8)) × (s'.y_position ≡ pos y)

  show_char-IsShown :
      (c x y : ℕ) (s : Console)
      → IsPrintable c
      → s.x_position ≡ pos x
      → s.y_position ≡ pos y
      → x + 8 ≤ g.x_resolution
      → y < g.y_resolution
      → (s' : Console) × (show_char font_row g fg bg c s ≡ ok s') × IsShown c x y s s'
  unfolding show_glyph
  show_char-IsShown c x y s printable at_x at_y across down =
      let (s', put, at_x', at_y', hit, miss) =
        put_color_char_lem font_row g fg bg c x y s at_x at_y across in
      let s'' = wrap font_row g (advance font_row g s') in
      let same : s''.pixels ≡ s'.pixels =
        wrap_y_pixels font_row g (wrap_x font_row g (advance font_row g s'))
        ∙ wrap_x_pixels font_row g (advance font_row g s') in
      let next : plus s'.x_position g.x_char_size ≡ pos (x + 8) =
        ap (λ p. plus p g.x_char_size) at_x' ∙ ap (λ w. pos (x + w)) width in
      (
        s'',
        printable-show_char font_row g fg bg c s printable
            ∙ ap (λ r. r >>= λ t. ok (wrap font_row g (advance font_row g t))) put,
        record {
          shown =
              ap (read_char g fg y x) same ∙ read_char_lem g fg c y x bg s'.pixels printable ne hit;
          left = λ row column before.
              ap (pixel_at (place g row column)) same
              ∙ miss row column (omega arith) (λ i j rows columns. inr (λ e. omega arith));
          behind = λ room.
              let stays =
                wrap_inside font_row g (x + 8) y (advance font_row g s') next at_y' room down in
              (ap (λ t. t.x_position) stays ∙ next, ap (λ t. t.y_position) stays ∙ at_y');
        },
      )

  pub show_text-read_text :
      (cs : List ℕ) (x y : ℕ) (s : Console)
      → ArePrintable cs
      → (0 < length cs → (s.x_position ≡ pos x) × (s.y_position ≡ pos y))
      → x + 8 * length cs ≤ g.x_resolution
      → y < g.y_resolution
      → (s' : Console) × (show_text font_row g cs fg bg s ≡ ok s')
        × (read_text g fg y x (length cs) s'.pixels ≡ cs)
        × ((row column : ℕ)
            → column < x
            → pixel_at (place g row column) s'.pixels ≡ pixel_at (place g row column) s.pixels)
  unfolding ArePrintable show_text read_text
  show_text-read_text [] x y s printable at across down = (s, refl, refl, λ row column before. refl)
  show_text-read_text (c ∷ cs) x y s printable at across down =
      let (at_x, at_y) = at (omega arith) in
      let (s', one, is) = show_char-IsShown c x y s printable.0 at_x at_y (omega arith) down in
      let (s'', rest, text, kept) =
        show_text-read_text cs (x + 8) y s' printable.1 (λ more. is.behind (omega arith))
          (omega arith) down in
      (
        s'',
        ap (λ r. r >>= λ t. show_text font_row g cs fg bg t) one ∙ rest,
        ap (λ d. d ∷ read_text g fg y (x + 8) (length cs) s''.pixels)
              (read_char_cong g fg y x s''.pixels s'.pixels
                  (λ i j _ columns. kept (y + i) (x + j) (omega arith))
                ∙ is.shown)
            ∙ ap (λ ds. c ∷ ds) text,
        λ row column before. kept row column (omega arith) ∙ is.left row column before,
      )
