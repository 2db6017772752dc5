-- ===== src/Printk/Console/Cursor.antt =====
-- The cursor of the console stays on the screen.
use knos.Base.{
  ap, ℕ, zero, suc, ◌+◌, ◌-◌, ◌≤◌, ◌<◌, ◌≡◌, refl, inl, inr, Bool, true, false, Bool-cases, List,
  [], ◌∷◌, Result, ok, ◌>>=◌, arith, ◌==◌, if◌then◌else◌,
}
use knos.Base.Int.{ℤ, pos, negsuc, minus, plus, reaches, minus_pos, minus_bound}
use knos.Printk.Console.{
  Geometry, Console, put_color_char, wrap_x, wrap_y, wrap, advance, show_glyph, show_spaces,
  newline, back_y, back_from, back, show_tab, show_char, show_text,
}

-- A screen of at least one character.
pub record IsScreen (g : Geometry) : Type 0 where
  pub x_fits : g.x_char_size ≤ g.x_resolution
  pub y_fits : g.y_char_size ≤ g.y_resolution
  pub x_some : 1 ≤ g.x_char_size
  pub y_some : 1 ≤ g.y_char_size

-- The cursor is at a pixel of the screen.
pub record IsOnScreen (g : Geometry) (s : Console) : Type 0 where
  pub x : ℕ
  pub y : ℕ
  pub at_x : s.x_position ≡ pos x
  pub at_y : s.y_position ≡ pos y
  pub x_inside : x < g.x_resolution
  pub y_inside : y < g.y_resolution

-- The call returns, with the cursor on the screen.
abbrev pub Shows : Geometry → Result Console → Type 0
Shows g r = (s : Console) × (r ≡ ok s) × IsOnScreen g s

module _ (font : ℕ → ℕ → ℕ) (g : Geometry) (screen : IsScreen g) where
  >>=-Shows :
      (first : Result Console) (rest : Console → Result Console)
      → Shows g first
      → ((s : Console) → IsOnScreen g s → Shows g (rest s))
      → Shows g (first >>= rest)
  >>=-Shows first rest (s, e, h) k = rw e (k s h)

  xres_some : 1 ≤ g.x_resolution
  xres_some = omega (arith, screen.x_fits, screen.x_some)

  yres_some : 1 ≤ g.y_resolution
  yres_some = omega (arith, screen.y_fits, screen.y_some)

  before_border : (n z : ℕ) (p : ℤ) → p ≡ pos z → reaches p n ≡ false → z < n
  before_border n z p at e = ground (arith, rw at at e)

  wrap_x-inside :
      (s : Console) (x y : ℕ)
      → s.x_position ≡ pos x
      → s.y_position ≡ pos y
      → (x' : ℕ) × (y' : ℕ) × ((wrap_x font g s).x_position ≡ pos x')
        × ((wrap_x font g s).y_position ≡ pos y')
        × (x' < g.x_resolution)
  unfolding wrap_x
  wrap_x-inside s x y at_x at_y = elim (Bool-cases (reaches s.x_position g.x_resolution)) [
    | inl e ↦ rw e (0, y + g.y_char_size, refl, ap (λ p. plus p g.y_char_size) at_y, xres_some)
    | inr e ↦ rw e (x, y, at_x, at_y, before_border _ x s.x_position at_x e)
  ]

  wrap_y-IsOnScreen :
      (s : Console) (x y : ℕ)
      → s.x_position ≡ pos x
      → s.y_position ≡ pos y
      → x < g.x_resolution
      → IsOnScreen g (wrap_y font g s)
  unfolding wrap_y
  wrap_y-IsOnScreen s x y at_x at_y inside =
      elim (Bool-cases (reaches s.y_position g.y_resolution)) [
        | inl e ↦ rw e (record {
          x = x;
          y = 0;
          at_x = at_x;
          at_y = refl;
          x_inside = inside;
          y_inside = yres_some;
        })
        | inr e ↦ rw e (record {
          x = x;
          y = y;
          at_x = at_x;
          at_y = at_y;
          x_inside = inside;
          y_inside = before_border _ y s.y_position at_y e;
        })
      ]

  -- From any place right of and below the corner, the checks of the borders lead back.
  wrap-IsOnScreen :
      (s : Console) (x y : ℕ)
      → s.x_position ≡ pos x
      → s.y_position ≡ pos y
      → IsOnScreen g (wrap font g s)
  wrap-IsOnScreen s x y at_x at_y =
      let w = wrap_x-inside s x y at_x at_y in
      wrap_y-IsOnScreen (wrap_x font g s) w.0 w.1 w.2 w.3 w.4

  put-Shows :
      (fg bg c : ℕ) (s : Console) → IsOnScreen g s → Shows g (put_color_char font g fg bg c s)
  unfolding put_color_char
  put-Shows fg bg c s h =
      rw (h.at_x, h.at_y)
        (
          _,
          refl,
          record {
            x = h.x;
            y = h.y;
            at_x = refl;
            at_y = refl;
            x_inside = h.x_inside;
            y_inside = h.y_inside;
          },
        )

  show_glyph-Shows :
      (fg bg c : ℕ) (s : Console) → IsOnScreen g s → Shows g (show_glyph font g fg bg c s)
  unfolding show_glyph
  show_glyph-Shows fg bg c s h = >>=-Shows _ _ (put-Shows fg bg c s h) (λ s' h'. (
    _,
    refl,
    wrap-IsOnScreen (advance font g s') (h'.x + g.x_char_size) h'.y
        (ap (λ p. plus p g.x_char_size) h'.at_x) h'.at_y,
  ))

  show_spaces-Shows :
      (line fg bg : ℕ) (s : Console) → IsOnScreen g s → Shows g (show_spaces font g line fg bg s)
  unfolding show_spaces
  show_spaces-Shows zero fg bg s h = (s, refl, h)
  show_spaces-Shows (suc line) fg bg s h =
      >>=-Shows _ _ (show_glyph-Shows fg bg b' ' s h) (λ s' h'. show_spaces-Shows line fg bg s' h')

  show_tab-Shows :
      (p : ℤ) (x fg bg : ℕ) (s : Console)
      → p ≡ pos x
      → IsOnScreen g s
      → Shows g (show_tab font g p fg bg s)
  show_tab-Shows p x fg bg s at h =
      let some_width : (g.x_char_size == 0) ≡ false = ground (arith, screen.x_some) in
      rw (at, some_width) (show_spaces-Shows _ fg bg s h)

  back_y-inside :
      (p : ℤ)
      → ((m : ℕ) → p ≡ pos m → m < g.y_resolution)
      → (y : ℕ) × (back_y font g p ≡ pos y) × (y < g.y_resolution)
  back_y-inside (pos m) h = (m, refl, h m refl)
  back_y-inside (negsuc m) h = (
    _,
    minus_pos g.y_resolution g.y_char_size screen.y_fits,
    omega (arith, screen.y_fits, screen.y_some),
  )

  back_from-IsOnScreen :
      (p : ℤ) (s : Console)
      → IsOnScreen g s
      → ((m : ℕ) → p ≡ pos m → m < g.x_resolution)
      → IsOnScreen g (back_from font g p s)
  back_from-IsOnScreen (pos m) s h inside = record {
    x = m;
    y = h.y;
    at_x = refl;
    at_y = h.at_y;
    x_inside = inside m refl;
    y_inside = h.y_inside;
  }
  back_from-IsOnScreen (negsuc m) s h inside =
      let up =
        back_y-inside (minus s.y_position g.y_char_size) (λ k e.
          omega (arith, h.y_inside, minus_bound s.y_position h.y g.y_char_size k h.at_y e)) in
      record {
        x = g.x_resolution - g.x_char_size;
        y = up.0;
        at_x = minus_pos g.x_resolution g.x_char_size screen.x_fits;
        at_y = up.1;
        x_inside = omega (arith, screen.x_fits, screen.x_some);
        y_inside = up.2;
      }

  -- One step back from a place on the screen leads to another.
  back-IsOnScreen : (s : Console) → IsOnScreen g s → IsOnScreen g (back font g s)
  unfolding back
  back-IsOnScreen s h =
      back_from-IsOnScreen (minus s.x_position g.x_char_size) s h
        (λ m e. omega (arith, h.x_inside, minus_bound s.x_position h.x g.x_char_size m h.at_x e))

  if-Shows :
      (test : Bool) (a b : Result Console) → Shows g a → Shows g b → Shows g (if test then a else b)
  if-Shows true a b h k = h
  if-Shows false a b h k = k

  show_char-Shows :
      (fg bg c : ℕ) (s : Console) → IsOnScreen g s → Shows g (show_char font g fg bg c s)
  unfolding show_char
  show_char-Shows fg bg c s h =
      if-Shows (c == 10) _ _
        (
          _,
          refl,
          wrap-IsOnScreen (newline font g s) 0 (h.y + g.y_char_size) refl
              (ap (λ p. plus p g.y_char_size) h.at_y),
        )
        (if-Shows (c == 8) _ _
          (>>=-Shows _ _ (put-Shows fg bg b' ' (back font g s) (back-IsOnScreen s h))
            (λ s' h'. (_, refl, wrap-IsOnScreen s' h'.x h'.y h'.at_x h'.at_y)))
          (if-Shows (c == 9) _ _ (show_tab-Shows s.x_position h.x fg bg s h.at_x h)
            (show_glyph-Shows fg bg c s h)))

  -- Whatever text is shown, on a screen of at least one character and with the cursor on it, the loop
  -- of `vcolor_printk` draws nothing before the frame buffer, divides by no 0, and ends with the
  -- cursor on the screen.
  pub show_text-IsOnScreen :
      (cs : List ℕ) (fg bg : ℕ) (s : Console)
      → IsOnScreen g s
      → Shows g (show_text font g cs fg bg s)
  unfolding show_text
  show_text-IsOnScreen [] fg bg s h = (s, refl, h)
  show_text-IsOnScreen (c ∷ cs) fg bg s h =
      >>=-Shows _ _ (show_char-Shows fg bg c s h) (λ s' h'. show_text-IsOnScreen cs fg bg s' h')
