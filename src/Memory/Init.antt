-- ===== src/Memory/Init.antt =====
-- `init_memory` of kernel/memory.c from the zones on, and as a whole.
pub mod Layout
pub mod Frames
pub mod Zones
pub mod Build
pub mod Spans
pub mod Taken
pub mod Kernel
pub mod Settle
pub mod Correct
mod Tests
use knos.Base.{
  ℕ, zero, suc, ◌+◌, ◌-◌, ◌*◌, ◌/◌, ◌%◌, ◌^◌, Bool, true, false, ◌&&◌, ◌||◌, Option, none, some,
  List, [], ◌∷◌, ◌++◌, Result, ok, fault, halted, ◌>>=◌, in_range, length, get_elem?, set, take,
  ltb, leb, ◌==◌, if◌then◌else◌,
}
use knos.Base.Word.{add64, sub64, shr}
use knos.Memory.{
  Page, page_2m, Zone, ZoneType, dma, normal, Manager, tlb_flushed, page_2m_shift, page_used,
  page_kernel, page_present, page_writable,
}
use knos.Memory.Bitmap.{set_bit, clear_bit}
use knos.Memory.E820.{E820Entry, Totals, base_of, end_of, round_up, round_down, prepare}
use knos.Memory.Init.Layout.{Placement, place_arrays, kernel_start, kernel_end}

-- At most 64 entries of the firmware's map are kept.
abbrev pub e820_max_entries : ℕ
e820_max_entries = 64

unfoldable pub stored_entries : List E820Entry → List E820Entry
stored_entries entries =
    if ltb e820_max_entries (length entries) then take e820_max_entries entries else entries

-- A frame of a zone before it is used.
abbrev pub fresh_page : ℕ → ℕ → Page
fresh_page z pfn = record {
  zone = some z;
  pfn = pfn;
  ref_count = 0;
  flags = 0;
  page_size = page_2m;
}

-- The loop over the frames of zone `z`, at frame `pfn`, with `left` rounds to go. A frame outside the
-- array is undefined.
unfoldable pub own_frames : ℕ → ℕ → ℕ → List Page → Result (List Page)
own_frames z zero pfn pages = ok pages
own_frames z (suc left) pfn pages = elim (ltb pfn (length pages)) [
  | true ↦ own_frames z left (pfn + 1) (set pages pfn (fresh_page z pfn))
  | false ↦ fault
]

abbrev pub new_zone : ZoneType → ℕ → ℕ → Zone
new_zone zone_type start_pfn end_pfn = record {
  page_array = start_pfn;
  total_pages = end_pfn - start_pfn;
  start_pfn = start_pfn;
  end_pfn = end_pfn;
  attr = 0;
  zone_type = zone_type;
  nr_free = end_pfn - start_pfn;
}

-- A zone behind the others, with its frames.
unfoldable pub add_zone : ZoneType → ℕ → ℕ → Manager → Result Manager
add_zone zone_type start_pfn end_pfn g =
    own_frames (length g.zones) (end_pfn - start_pfn) start_pfn g.pages >>= λ pages.
    ok (record g { pages = pages; zones = g.zones ++ (new_zone zone_type start_pfn end_pfn ∷ []) })

-- 16 MB.
abbrev pub dma_boundary : ℕ
dma_boundary = 0x1000000

-- The zone of a part of the memory that starts at `start` and ends at `end`: two zones if it crosses
-- the boundary, else one, whose loop halts if it ends behind `max_pfn`.
unfoldable pub zones_of : ℕ → ℕ → ℕ → Manager → Result Manager
zones_of max_pfn start end g =
    if ltb start dma_boundary && ltb dma_boundary end
    then (add_zone dma (shr start page_2m_shift) (shr dma_boundary page_2m_shift) g >>= λ g'.
        add_zone normal (shr dma_boundary page_2m_shift) (shr end page_2m_shift) g')
    else if ltb max_pfn (shr end page_2m_shift)
    then halted
    else add_zone (if ltb start dma_boundary then dma else normal) (shr start page_2m_shift)
        (shr end page_2m_shift) g

unfoldable pub entry_zones : ℕ → E820Entry → Manager → Result Manager
entry_zones max_pfn e g =
    if e.entry_type == 1
    then (if leb (round_down (end_of e)) (round_up (base_of e))
        then ok g
        else zones_of max_pfn (round_up (base_of e)) (round_down (end_of e)) g)
    else ok g

unfoldable pub build_zones : ℕ → List E820Entry → Manager → Result Manager
build_zones max_pfn [] g = ok g
build_zones max_pfn (e ∷ es) g = entry_zones max_pfn e g >>= λ g'. build_zones max_pfn es g'

-- Page 0 is given to the first zone, and its mark is taken off.
unfoldable pub claim_page_0 : Manager → Result Manager
claim_page_0 g = in_range (get_elem? g.pages 0) >>= λ p. clear_bit g.bitmap 0 >>= λ words.
    ok (record g { bitmap = words; pages = set g.pages 0 (fresh_page 0 0) })

-- The test of the bitmap: the bit of the tenth page behind the first zone's start is set and cleared.
-- (The last zone is read as well, for a message; with no zone that is outside the array.)
unfoldable pub test_bit : Manager → Result Manager
test_bit g = in_range (get_elem? g.zones 0) >>= λ first.
    set_bit g.bitmap (add64 first.start_pfn 10) >>= λ words.
    clear_bit words (add64 first.start_pfn 10) >>= λ words'. ok (record g { bitmap = words' })

-- The first zone with `pfn >= start_pfn && pfn <= end_pfn` has one free page less, and so has the
-- manager.
unfoldable pub charge_zone : ℕ → List Zone → Option (List Zone)
charge_zone pfn [] = none
charge_zone pfn (zone ∷ zones) = elim (leb zone.start_pfn pfn && leb pfn zone.end_pfn) [
  | true ↦ some (record zone { nr_free = sub64 zone.nr_free 1 } ∷ zones)
  | false ↦ elim (charge_zone pfn zones) [ none ↦ none | some rest ↦ some (zone ∷ rest) ]
]

abbrev pub charged : Manager → Option (List Zone) → Manager
charged g none = g
charged g (some zones) = record g { zones = zones; free_2m_pages = sub64 g.free_2m_pages 1 }

abbrev pub kernel_flags : ℕ
kernel_flags = page_kernel + page_present + page_writable + page_used

-- One page of the kernel's arrays.
unfoldable pub take_kernel_page : ℕ → Manager → Result Manager
take_kernel_page pfn g = set_bit g.bitmap pfn >>= λ words. in_range (get_elem? g.pages pfn) >>= λ p.
    ok (
      charged
        (record g {
          bitmap = words;
          pages = set g.pages pfn (record p { flags = kernel_flags; ref_count = 1 });
        })
        (charge_zone pfn g.zones))

unfoldable pub take_kernel_pages : ℕ → ℕ → Manager → Result Manager
take_kernel_pages zero pfn g = ok g
take_kernel_pages (suc left) pfn g =
    take_kernel_page pfn g >>= λ g'. take_kernel_pages left (pfn + 1) g'

-- The first ten entries of the top page table are cleared.
unfoldable pub clear_entries : ℕ → ℕ → List ℕ → List ℕ
clear_entries zero i pml4 = pml4
clear_entries (suc left) i pml4 = clear_entries left (i + 1) (set pml4 i 0)

-- What `init_memory` leaves behind.
pub record Initialised : Type 0 where
  pub totals : Totals
  pub manager : Manager
  pub layout : Placement
  pub pml4 : List ℕ

-- The manager when the zones are built: its count of free pages is still the 0 of a global variable.
abbrev pub before_zones : List ℕ → List Page → Manager
before_zones bitmap pages = record {
  bitmap = bitmap;
  pages = pages;
  zones = [];
  free_2m_pages = 0;
  trace = [];
}

abbrev pub flush : Manager → Manager
flush g = record g { trace = tlb_flushed ∷ g.trace }

-- From the built zones to the end.
unfoldable pub settle : ℕ → ℕ → Manager → Result (Manager × Placement)
settle end_krnl max_pfn g = claim_page_0 g >>= λ g1. test_bit g1 >>= λ g2.
    let l = place_arrays end_krnl max_pfn (length g2.zones) in
    take_kernel_pages (kernel_end l - kernel_start l) (kernel_start l) g2 >>= λ g3. ok (flush g3, l)

unfoldable pub init_memory : ℕ → List ℕ → List E820Entry → Result Initialised
init_memory end_krnl pml4 entries =
    let es = stored_entries entries in
    prepare es >>= λ p. build_zones p.0.max_pfn es (before_zones p.1.0 p.1.1) >>= λ g.
    settle end_krnl p.0.max_pfn g >>= λ s.
    ok (record { totals = p.0; manager = s.0; layout = s.1; pml4 = clear_entries 10 0 pml4 })
