-- ===== src/Boot.antt =====
-- The part of `Start_Kernel` of kernel/main.c that tries out the page allocator.
pub mod Correct
pub mod Script
pub mod Picture
pub mod Lines
pub mod Kernel
mod Tests
use knos.Base.{ℕ, ◌+◌, ◌/◌, Option, none, some, List, Result, ok, ◌>>=◌, in_range, get_elem?}
use knos.Memory.{Page, Manager, normal, page_kernel, page_present, page_writable}
use knos.Memory.Alloc.{alloc_pages}
use knos.Memory.Free.{free_pages}
use knos.Memory.E820.{E820Entry}
use knos.Memory.Init.{init_memory}

-- What the code shows on the screen: the frame's number, the words of the bitmap that it reads behind
-- the allocation, and the frame behind its return. `refused`: no page was allocated.
pub data Shown : Type 0 where
  refused : Shown
  tried : ℕ → ℕ → ℕ → Page → Shown

abbrev pub test_pages : ℕ
test_pages = 64

abbrev pub test_flags : ℕ
test_flags = page_kernel + page_present + page_writable

-- Behind the call of `alloc_pages`: the word of the frame's bit and the next one are read, the pages
-- are returned, and the frame is read again.
unfoldable pub try_page : Option ℕ → Manager → Result (Shown × Manager)
try_page none g = ok (refused, g)
try_page (some page) g = in_range (get_elem? g.pages page) >>= λ p.
    in_range (get_elem? g.bitmap (p.pfn / 64)) >>= λ word.
    in_range (get_elem? g.bitmap (p.pfn / 64 + 1)) >>= λ next.
    free_pages g (some page) test_pages >>= λ g'.
    in_range (get_elem? g'.pages p.pfn) >>= λ checked. ok (tried p.pfn word next checked, g')

unfoldable pub try_allocator : Manager → Result (Shown × Manager)
try_allocator g = alloc_pages g normal test_pages test_flags >>= λ r. try_page r.0 r.1

unfoldable pub start_memory : ℕ → List ℕ → List E820Entry → Result (Shown × Manager)
start_memory end_krnl pml4 entries =
    init_memory end_krnl pml4 entries >>= λ r. try_allocator r.manager
