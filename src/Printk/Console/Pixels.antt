-- ===== src/Printk/Console/Pixels.antt =====
-- Where `put_color_char` of kernel/printk.c writes.
use knos.Base.{ℕ, zero, suc, ◌+◌, ◌*◌, ◌≤◌, ◌<◌, List, [], ◌∷◌, arith}
use knos.Printk.Console.{Geometry, put_row, put_rows}

-- The bytes of the frame buffer.
abbrev pub frame_bytes : Geometry → ℕ
frame_bytes g = g.x_resolution * g.y_resolution * 4

-- All four bytes of each pixel lie in a buffer of `size` bytes.
unfoldable pub AreInside : ℕ → List (ℕ × ℕ) → Type 0
AreInside size [] = 0 ≤ 0
AreInside size (p ∷ pixels) = (p.0 + 4 ≤ size) × AreInside size pixels

put_row-AreInside :
    (font : ℕ → ℕ → ℕ) (g : Geometry) (size left j row offset x fg bg : ℕ) (pixels : List (ℕ × ℕ))
    → offset + (x + (j + left)) * 4 ≤ size
    → AreInside size pixels
    → AreInside size (put_row font g left j row offset x fg bg pixels)
unfolding put_row AreInside
put_row-AreInside font g size zero j row offset x fg bg pixels fits h = h
put_row-AreInside font g size (suc left) j row offset x fg bg pixels fits h =
    put_row-AreInside font g size left (j + 1) row offset x fg bg _ (omega arith) (omega arith, h)

-- A row of pixels above the last ends in the buffer.
row-fits : (w h x r : ℕ) → x + 8 ≤ w → r < h → r * w * 4 + (x + (0 + 8)) * 4 ≤ w * h * 4
row-fits w h x r across down = grind arith

pub put_rows-AreInside :
    (font : ℕ → ℕ → ℕ) (g : Geometry) (left i c x y fg bg : ℕ) (pixels : List (ℕ × ℕ))
    → x + 8 ≤ g.x_resolution
    → y + (i + left) ≤ g.y_resolution
    → AreInside (frame_bytes g) pixels
    → AreInside (frame_bytes g) (put_rows font g left i c x y fg bg pixels)
unfolding put_rows
put_rows-AreInside font g zero i c x y fg bg pixels across down h = h
put_rows-AreInside font g (suc left) i c x y fg bg pixels across down h =
    put_rows-AreInside font g left (i + 1) c x y fg bg _ across (omega arith) (
      put_row-AreInside font g (frame_bytes g) 8 0 (font c i) ((y + i) * g.x_resolution * 4) x fg bg
        pixels (row-fits g.x_resolution g.y_resolution x (y + i) across (omega arith)) h)
