-- ===== src/Boot/Picture/Colours.antt =====
-- The pixels of the test picture of kernel/main.c.
use native.Mathlib.Decide.{dec_lt}
use knos.Base.{
  ℕ, zero, suc, ◌+◌, ◌-◌, ◌*◌, ◌/◌, ◌%◌, ◌≤◌, ◌<◌, ◌≡◌, ◌⊎◌, inl, inr, refl, ap, ◌∙◌, some, List,
  ◌∷◌, arith,
}
use knos.Printk.Console.Glyph.{pixel_at, pixel_at_other, pixel_at_same}
use knos.Printk.Console.Pixels.{AreInside}
use knos.Boot.Picture.{bar_color, draw_columns, draw_lines, draw_bars, draw_picture}

-- Outside the run of pixels from `at` to `end` nothing is drawn.
abbrev IsOutside : ℕ → ℕ → ℕ → Type 0
IsOutside at end k = (k < at) ⊎ (end ≤ k)

columns_miss :
    (k left x bar at : ℕ) (pixels : List (ℕ × ℕ))
    → IsOutside at (at + left) k
    → pixel_at (k * 4) (draw_columns left x bar at pixels) ≡ pixel_at (k * 4) pixels
unfolding draw_columns
columns_miss k zero x bar at pixels out = refl
columns_miss k (suc left) x bar at pixels out =
    columns_miss k left (x + 1) bar (at + 1) _ (ground arith)
    ∙ pixel_at_other (k * 4) (at * 4) _ pixels (ground arith)

columns_hit :
    (k left x bar at : ℕ) (pixels : List (ℕ × ℕ))
    → at ≤ k
    → k < at + left
    → pixel_at (k * 4) (draw_columns left x bar at pixels) ≡ some (bar_color bar (x + (k - at)))
unfolding draw_columns
columns_hit k zero x bar at pixels from below = absurd (omega arith)
columns_hit k (suc left) x bar at pixels from below = elim (dec_lt at k) [
  | yes later ↦
      columns_hit k left (x + 1) bar (at + 1) _ (omega arith) (omega arith)
      ∙ ap (λ c. some (bar_color bar c)) (omega arith)
  | no earlier ↦
      let same : k ≡ at = omega arith in
      columns_miss k left (x + 1) bar (at + 1) _ (inl (omega arith))
      ∙ ap (λ o. pixel_at o ((at * 4, bar_color bar x) ∷ pixels)) (omega arith)
      ∙ pixel_at_same (at * 4) (bar_color bar x) pixels
      ∙ ap (λ c. some (bar_color bar c)) (omega arith)
]

lines_miss :
    (k left bar at : ℕ) (pixels : List (ℕ × ℕ))
    → IsOutside at (at + left * 1024) k
    → pixel_at (k * 4) (draw_lines left bar at pixels) ≡ pixel_at (k * 4) pixels
unfolding draw_lines
lines_miss k zero bar at pixels out = refl
lines_miss k (suc left) bar at pixels out =
    lines_miss k left bar (at + 1024) _ (ground arith)
    ∙ columns_miss k 1024 0 bar at pixels (ground arith)

lines_hit :
    (k left bar at : ℕ) (pixels : List (ℕ × ℕ))
    → at ≤ k
    → k < at + left * 1024
    → pixel_at (k * 4) (draw_lines left bar at pixels) ≡ some (bar_color bar ((k - at) % 1024))
unfolding draw_lines
lines_hit k zero bar at pixels from below = absurd (omega arith)
lines_hit k (suc left) bar at pixels from below = elim (dec_lt k (at + 1024)) [
  | no later ↦
      lines_hit k left bar (at + 1024) _ (omega arith) (omega arith)
      ∙ ap (λ c. some (bar_color bar c)) (omega arith)
  | yes here ↦
      lines_miss k left bar (at + 1024) _ (inl here)
      ∙ columns_hit k 1024 0 bar at pixels from here
      ∙ ap (λ c. some (bar_color bar c)) (omega arith)
]

bars_miss :
    (k left bar at : ℕ) (pixels : List (ℕ × ℕ))
    → IsOutside at (at + left * 20480) k
    → pixel_at (k * 4) (draw_bars left bar at pixels) ≡ pixel_at (k * 4) pixels
unfolding draw_bars
bars_miss k zero bar at pixels out = refl
bars_miss k (suc left) bar at pixels out =
    bars_miss k left (bar + 1) (at + 20480) _ (ground arith)
    ∙ lines_miss k 20 bar at pixels (ground arith)

bars_hit :
    (k left bar at : ℕ) (pixels : List (ℕ × ℕ))
    → at ≤ k
    → k < at + left * 20480
    → pixel_at (k * 4) (draw_bars left bar at pixels)
      ≡ some (bar_color (bar + (k - at) / 20480) ((k - at) % 1024))
unfolding draw_bars
bars_hit k zero bar at pixels from below = absurd (omega arith)
bars_hit k (suc left) bar at pixels from below = elim (dec_lt k (at + 20480)) [
  | no later ↦
      bars_hit k left (bar + 1) (at + 20480) _ (omega arith) (omega arith)
      ∙ ap (λ b. some (bar_color b ((k - (at + 20480)) % 1024))) (omega arith)
      ∙ ap (λ c. some (bar_color (bar + (k - at) / 20480) c)) (omega arith)
  | yes here ↦
      bars_miss k left (bar + 1) (at + 20480) _ (inl here)
      ∙ lines_hit k 20 bar at pixels from here
      ∙ ap (λ b. some (bar_color b ((k - at) % 1024))) (omega arith)
]

-- The picture takes the first 81920 pixels of the frame buffer: pixel `k` has the colour of column
-- `k % 1024` of bar `k / 20480`. No other pixel is drawn.
pub draw_picture_lem :
    (k : ℕ) (pixels : List (ℕ × ℕ))
    → ((k < 81920)
        × (pixel_at (k * 4) (draw_picture pixels) ≡ some (bar_color (k / 20480) (k % 1024))))
      ⊎ ((81920 ≤ k) × (pixel_at (k * 4) (draw_picture pixels) ≡ pixel_at (k * 4) pixels))
unfolding draw_picture
draw_picture_lem k pixels = elim (dec_lt k 81920) [
  | yes inside ↦ inl (
    inside,
    bars_hit k 4 0 0 pixels (omega arith) inside
        ∙ ap (λ b. some (bar_color b ((k - 0) % 1024))) (omega arith)
        ∙ ap (λ c. some (bar_color (k / 20480) c)) (omega arith),
  )
  | no outside ↦ inr (omega arith, bars_miss k 4 0 0 pixels (inr (omega arith)))
]

-- In a buffer with room for it the picture stays inside.
columns-AreInside :
    (size left x bar at : ℕ) (pixels : List (ℕ × ℕ))
    → (at + left) * 4 ≤ size
    → AreInside size pixels
    → AreInside size (draw_columns left x bar at pixels)
unfolding draw_columns AreInside
columns-AreInside size zero x bar at pixels fits is = is
columns-AreInside size (suc left) x bar at pixels fits is =
    columns-AreInside size left (x + 1) bar (at + 1) _ (omega arith) (omega arith, is)

lines-AreInside :
    (size left bar at : ℕ) (pixels : List (ℕ × ℕ))
    → (at + left * 1024) * 4 ≤ size
    → AreInside size pixels
    → AreInside size (draw_lines left bar at pixels)
unfolding draw_lines
lines-AreInside size zero bar at pixels fits is = is
lines-AreInside size (suc left) bar at pixels fits is =
    lines-AreInside size left bar (at + 1024) _ (omega arith)
      (columns-AreInside size 1024 0 bar at pixels (omega arith) is)

bars-AreInside :
    (size left bar at : ℕ) (pixels : List (ℕ × ℕ))
    → (at + left * 20480) * 4 ≤ size
    → AreInside size pixels
    → AreInside size (draw_bars left bar at pixels)
unfolding draw_bars
bars-AreInside size zero bar at pixels fits is = is
bars-AreInside size (suc left) bar at pixels fits is =
    bars-AreInside size left (bar + 1) (at + 20480) _ (omega arith)
      (lines-AreInside size 20 bar at pixels (omega arith) is)

pub draw_picture-AreInside :
    (size : ℕ) (pixels : List (ℕ × ℕ))
    → 81920 * 4 ≤ size
    → AreInside size pixels
    → AreInside size (draw_picture pixels)
unfolding draw_picture
draw_picture-AreInside size pixels room is = bars-AreInside size 4 0 0 pixels (omega arith) is
