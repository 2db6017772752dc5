-- ===== src/Vbe/Tests.antt =====
-- A screen of 1024 by 768 pixels.
use knos.Base.{ℕ, ◌≡◌, refl, ok, arith}
use knos.Printk.Number.{codes}
use knos.Printk.Console.{Console, show_text}
use knos.Printk.Console.Pixels.{AreInside}
use knos.Vbe.{VbeInfo, Screen, init_vbe_info}
use knos.Vbe.Text.{IsUsable, init_vbe_info-AreInside}

abbrev info : VbeInfo
info = record {
  x_resolution = 1024;
  y_resolution = 768;
  bits_per_pixel = 32;
  mode_attributes = 0xFB;
  phys_base_ptr = 0xE0000000;
  max_pixel_clock = 0;
}

info-IsUsable : IsUsable info 128 48
info-IsUsable = record {
  width = refl;
  height = refl;
  some_column = omega arith;
  some_row = omega arith;
  bounded = omega arith;
}

-- A glyph of vertical lines.
abbrev lines : ℕ → ℕ → ℕ
lines c i = 0xAA

init_vbe_info-AreInside_example :
    (screen : Screen) × (s : Console) × (init_vbe_info info ≡ ok screen)
    × (show_text lines screen.geometry (codes "a\tb\u{8}\n") 0xFFFFFFFF 0xFF000000 screen.console
        ≡ ok s)
    × AreInside screen.frame_buffer_length s.pixels
init_vbe_info-AreInside_example =
    init_vbe_info-AreInside lines info 128 48 (codes "a\tb\u{8}\n") 0xFFFFFFFF 0xFF000000
      info-IsUsable
