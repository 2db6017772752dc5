-- ===== src/Vbe/Text.antt =====
-- Behind `init_vbe_info` of kernel/vbe.c, printing stays inside the frame buffer.
use knos.Base.{ℕ, ◌*◌, ◌^◌, ◌≤◌, ◌<◌, ◌≡◌, refl, false, List, ok, arith, leb}
use knos.Printk.Console.{Console, show_text}
use knos.Printk.Console.Pixels.{AreInside}
use knos.Printk.Console.Frame.{IsGrid, IsInFrame, show_text-IsInFrame}
use knos.Vbe.{VbeInfo, Screen, screen_of, init_vbe_info}

-- A resolution of whole characters, whose frame buffer has a length that an int32_t holds.
pub record IsUsable (info : VbeInfo) (columns rows : ℕ) : Type 0 where
  pub width : info.x_resolution ≡ 8 * columns
  pub height : info.y_resolution ≡ 16 * rows
  pub some_column : 1 ≤ columns
  pub some_row : 1 ≤ rows
  pub bounded : info.x_resolution * info.y_resolution * 4 < 2 ^ 31

-- With a resolution of whole characters of 8 by 16 pixels and a frame buffer below 2 GB,
-- `init_vbe_info` returns, and any text that is shown then, control characters included, is drawn
-- inside the frame buffer that it has set up.
pub init_vbe_info-AreInside :
    (font : ℕ → ℕ → ℕ) (info : VbeInfo) (columns rows : ℕ) (cs : List ℕ) (fg bg : ℕ)
    → IsUsable info columns rows
    → (screen : Screen) × (s : Console) × (init_vbe_info info ≡ ok screen)
      × (show_text font screen.geometry cs fg bg screen.console ≡ ok s)
      × AreInside screen.frame_buffer_length s.pixels
unfolding init_vbe_info AreInside
init_vbe_info-AreInside font info columns rows cs fg bg usable =
    let screen = screen_of info in
    let grid : IsGrid screen.geometry columns rows = record {
      width = usable.width;
      height = usable.height;
      char_width = refl;
      char_height = refl;
      some_column = usable.some_column;
      some_row = usable.some_row;
    } in
    let start : IsInFrame font screen.geometry columns rows grid screen.console = record {
      column = 0;
      row = 0;
      at_x = refl;
      at_y = refl;
      column_inside = usable.some_column;
      row_inside = usable.some_row;
      drawn = omega arith;
    } in
    let (s, run, is) =
      show_text-IsInFrame font screen.geometry columns rows grid cs fg bg screen.console start in
    let small : leb (2 ^ 31) (info.x_resolution * info.y_resolution * 4) ≡ false =
      ground (arith, usable.bounded) in
    (screen, s, rw small refl, run, is.drawn)
