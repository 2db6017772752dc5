-- ===== src/Memory/Init/Layout.antt =====
-- Where `init_memory` of kernel/memory.c puts its arrays: behind the kernel, one behind the other.
use knos.Base.{ℕ, ◌+◌, ◌-◌, ◌*◌, ◌/◌, ◌^◌, ◌≤◌, ◌<◌, arith}
use knos.Base.Word.{u64, add64, sub64}
use knos.Memory.{page_2m_size, page_4k_size}
use knos.Memory.E820.{round_up, bitmap_words}

-- `(a + 4095) & PAGE_4K_MASK` and `(a + 63) & ~63`.
abbrev pub align_4k : ℕ → ℕ
align_4k a = u64 (a + page_4k_size - 1) / page_4k_size * page_4k_size

abbrev pub align_64 : ℕ → ℕ
align_64 a = u64 (a + 63) / 64 * 64

-- The sizes of `struct page_frame_struct` and `struct memory_zone_struct` in bytes.
abbrev pub page_frame_bytes : ℕ
page_frame_bytes = 32

abbrev pub memory_zone_bytes : ℕ
memory_zone_bytes = 64

-- The addresses and sizes of the three arrays, and the address behind them.
pub record Placement : Type 0 where
  pub bitmap_addr : ℕ
  pub bitmap_size : ℕ
  pub page_addr : ℕ
  pub page_size : ℕ
  pub zone_addr : ℕ
  pub zone_size : ℕ
  pub struct_end : ℕ

-- `end_krnl` is the address of the linker's `_end`.
unfoldable pub place_arrays : ℕ → ℕ → ℕ → Placement
place_arrays end_krnl max_pfn zone_count =
    let bitmap_addr = align_4k end_krnl in
    let bitmap_size = bitmap_words max_pfn * 8 in
    let page_addr = align_4k (add64 bitmap_addr bitmap_size) in
    let page_size = align_64 ((max_pfn + 1) * page_frame_bytes) in
    let zone_addr = align_4k (add64 page_addr page_size) in
    let zone_size = align_64 (zone_count * memory_zone_bytes) in
    record {
      bitmap_addr = bitmap_addr;
      bitmap_size = bitmap_size;
      page_addr = page_addr;
      page_size = page_size;
      zone_addr = zone_addr;
      zone_size = zone_size;
      struct_end = align_64 (add64 zone_addr zone_size);
    }

-- `VIRT_TO_PHYS`
abbrev pub virt_to_phys : ℕ → ℕ
virt_to_phys a = sub64 a 0xFFFF800000000000

-- The pages that the kernel marks as taken by the arrays.
unfoldable pub kernel_start : Placement → ℕ
kernel_start l = round_up (virt_to_phys l.bitmap_addr) / page_2m_size

unfoldable pub kernel_end : Placement → ℕ
kernel_end l = round_up (u64 (virt_to_phys l.struct_end + page_2m_size - 1)) / page_2m_size

-- The arrays lie behind the kernel, do not overlap, and are as long as their elements need.
pub record IsDisjoint (end_krnl max_pfn zone_count : ℕ) (l : Placement) : Type 0 where
  pub behind_kernel : end_krnl ≤ l.bitmap_addr
  pub bitmap_holds : max_pfn < 8 * l.bitmap_size
  pub bitmap_first : l.bitmap_addr + l.bitmap_size ≤ l.page_addr
  pub page_holds : (max_pfn + 1) * page_frame_bytes ≤ l.page_size
  pub page_second : l.page_addr + l.page_size ≤ l.zone_addr
  pub zone_holds : zone_count * memory_zone_bytes ≤ l.zone_size
  pub zone_last : l.zone_addr + l.zone_size ≤ l.struct_end
  pub short : l.struct_end < end_krnl + 33 * max_pfn + 64 * zone_count + 13000

-- For a kernel that ends at least 1 TB below the top of the address space, up to 2 ^ 32 pages and 2 ^ 20
-- zones, the bitmap, the frames and the zones lie behind the kernel in this order, do not overlap, hold
-- a bit and a frame for each page up to `max_pfn` and every zone, and end less than 33 bytes for each
-- page, 64 for each zone and 13,000 behind the kernel.
pub place_arrays-IsDisjoint :
    (end_krnl max_pfn zone_count : ℕ)
    → end_krnl + 2 ^ 40 ≤ 2 ^ 64
    → max_pfn < 2 ^ 32
    → zone_count < 2 ^ 20
    → IsDisjoint end_krnl max_pfn zone_count (place_arrays end_krnl max_pfn zone_count)
unfolding place_arrays
place_arrays-IsDisjoint end_krnl max_pfn zone_count low few_pages few_zones = record {
  behind_kernel = omega arith;
  bitmap_holds = omega arith;
  bitmap_first = omega arith;
  page_holds = omega arith;
  page_second = omega arith;
  zone_holds = omega arith;
  zone_last = omega arith;
  short = omega arith;
}

-- Where physical memory behind the kernel's virtual base starts, the marked pages reach behind the
-- arrays, and every byte of the arrays from the first whole page on lies in a marked page.
pub kernel_pages_cover :
    (l : Placement) (a : ℕ)
    → 0xFFFF800000000000 ≤ l.bitmap_addr
    → l.struct_end + 2 ^ 40 ≤ 2 ^ 64
    → l.bitmap_addr ≤ l.struct_end
    → kernel_start l * page_2m_size ≤ virt_to_phys a
    → 0xFFFF800000000000 ≤ a
    → a < l.struct_end
    → (kernel_start l ≤ virt_to_phys a / page_2m_size)
      × (virt_to_phys a / page_2m_size < kernel_end l)
unfolding kernel_start kernel_end
kernel_pages_cover l a base top ordered from high inside = (omega arith, omega arith)
