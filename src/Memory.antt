-- ===== src/Memory.antt =====
-- The data of kernel/memory.h: page frames, memory zones, and the part of the global memory manager
-- that the page allocator reads and writes.
pub mod Bitmap
pub mod WellFormed
pub mod Frame
pub mod Search
pub mod Alloc
pub mod Free
pub mod Lifecycle
pub mod E820
pub mod Init
pub mod Session
pub mod Blocks
mod Tests
use knos.Base.{ℕ, ◌^◌, Option, List}

-- The page states and attributes that the allocator and its callers use.
abbrev pub page_used : ℕ
page_used = 0x0002

abbrev pub page_reserved : ℕ
page_reserved = 0x0004

abbrev pub page_kernel : ℕ
page_kernel = 0x0008

abbrev pub page_present : ℕ
page_present = 0x0100

abbrev pub page_writable : ℕ
page_writable = 0x0200

abbrev pub page_user : ℕ
page_user = 0x0400

abbrev pub page_2m_shift : ℕ
page_2m_shift = 21

abbrev pub page_2m_size : ℕ
page_2m_size = 2 ^ 21

abbrev pub page_4k_size : ℕ
page_4k_size = 2 ^ 12

-- `enum page_size`.
pub data PageSize : Type 0 where
  page_4k page_2m page_1g : PageSize

-- `struct page_frame_struct`. `zone` is the pointer into the zone array, as an index; `none` is NULL.
pub record Page : Type 0 where
  pub zone : Option ℕ
  pub pfn : ℕ
  pub ref_count : ℕ
  pub flags : ℕ
  pub page_size : PageSize

-- `enum memory_zone_type`.
pub data ZoneType : Type 0 where
  dma dma32 normal : ZoneType

-- `struct memory_zone_struct`. `page_array` is the index of the zone's first frame in the frame
-- array. Every zone's `GMM_struct` points to the one global manager, so it is left out.
pub record Zone : Type 0 where
  pub page_array : ℕ
  pub total_pages : ℕ
  pub start_pfn : ℕ
  pub end_pfn : ℕ
  pub attr : ℕ
  pub zone_type : ZoneType
  pub nr_free : ℕ

-- What the code reports or does to the processor: the warnings of `warnk` and `flush_tlb_all`.
pub data Event : Type 0 where
  not_enough_pages : ZoneType → ℕ → Event
  not_contiguous : ZoneType → ℕ → Event
  invalid_parameters : ℕ → Event
  invalid_frame : ℕ → Event
  unused_page : ℕ → Event
  tlb_flushed : Event

-- `struct global_memory_manager_struct`, as far as the allocator uses it. The words of the page
-- bitmap, the frame array and the zone array are lists; `page.count` and `zone.count` are the
-- lengths of the last two. `trace` holds the events, the latest first.
pub record Manager : Type 0 where
  pub bitmap : List ℕ
  pub pages : List Page
  pub zones : List Zone
  pub free_2m_pages : ℕ
  pub trace : List Event
