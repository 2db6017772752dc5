-- ===== src/Vbe.antt =====
-- `init_vbe_info` of kernel/vbe.c: the console takes its size from the boot loader's VBE structure.
pub mod Text
mod Tests
use knos.Base.{ℕ, ◌*◌, ◌^◌, [], Result, ok, fault, leb, if◌then◌else◌}
use knos.Base.Int.{pos}
use knos.Printk.Console.{Geometry, Console}

-- The fields of the VBE structure that the kernel reads.
pub record VbeInfo : Type 0 where
  pub x_resolution : ℕ
  pub y_resolution : ℕ
  pub bits_per_pixel : ℕ
  pub mode_attributes : ℕ
  pub phys_base_ptr : ℕ
  pub max_pixel_clock : ℕ

-- `printk_pos`, with nothing drawn yet.
pub record Screen : Type 0 where
  pub geometry : Geometry
  pub console : Console
  pub frame_buffer_addr : ℕ
  pub frame_buffer_length : ℕ
  pub bpp : ℕ

abbrev pub screen_of : VbeInfo → Screen
screen_of info = record {
  geometry = record {
    x_resolution = info.x_resolution;
    y_resolution = info.y_resolution;
    x_char_size = 8;
    y_char_size = 16;
  };
  console = record { x_position = pos 0; y_position = pos 0; pixels = [] };
  frame_buffer_addr = 0xFFFF800001A00000;
  frame_buffer_length = info.x_resolution * info.y_resolution * 4;
  bpp = info.bits_per_pixel;
}

-- The length is computed as an int32_t, whose overflow is undefined.
unfoldable pub init_vbe_info : VbeInfo → Result Screen
init_vbe_info info =
    if leb (2 ^ 31) (info.x_resolution * info.y_resolution * 4) then fault else ok (screen_of info)
