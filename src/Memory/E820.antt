-- ===== src/Memory/E820.antt =====
-- The first steps of `init_memory` of kernel/memory.c: the map of the memory that the firmware left,
-- and the bits of what is not usable.
pub mod Reserved
mod Tests
use knos.Base.{
  ℕ, zero, suc, ◌+◌, ◌-◌, ◌*◌, ◌/◌, ◌%◌, ◌^◌, Bool, true, false, not, ◌||◌, Option, none, some,
  List, [], ◌∷◌, Result, ok, fault, ◌>>=◌, in_range, length, get_elem?, replicate, map, ltb, leb,
  ◌==◌, if◌then◌else◌, max,
}
use knos.Base.Word.{u64, add64, sub64, shr}
use knos.Memory.{Page, Zone, page_2m_shift, page_2m_size, page_4k_size, page_reserved, page_2m}
use knos.Memory.Bitmap.{set_bit}

-- `struct e820_entry_struct`, with the name `entry_type` for its field `type`.
pub record E820Entry : Type 0 where
  pub base_addr_low : ℕ
  pub base_addr_high : ℕ
  pub length_low : ℕ
  pub length_high : ℕ
  pub entry_type : ℕ

abbrev pub base_of : E820Entry → ℕ
base_of e = e.base_addr_high * 2 ^ 32 + e.base_addr_low

abbrev pub length_of : E820Entry → ℕ
length_of e = e.length_high * 2 ^ 32 + e.length_low

abbrev pub end_of : E820Entry → ℕ
end_of e = add64 (base_of e) (length_of e)

-- `& PAGE_2M_MASK`, and `PAGE_2M_ALIGN`.
abbrev pub round_down : ℕ → ℕ
round_down a = a / page_2m_size * page_2m_size

abbrev pub round_up : ℕ → ℕ
round_up a = round_down (u64 (a + page_2m_size - 1))

-- The totals of step 2.
pub record Totals : Type 0 where
  pub max_pfn : ℕ
  pub total_2m_pages : ℕ
  pub total_memory : ℕ

abbrev pub no_totals : Totals
no_totals = record { max_pfn = 0; total_2m_pages = 0; total_memory = 0 }

-- `memory_type_array` has five entries, and is indexed before the type is tested.
abbrev pub names_of_types : ℕ
names_of_types = 5

-- Only whole pages of usable memory count.
unfoldable pub count_usable : E820Entry → Totals → Totals
count_usable e t =
    let aligned_base = round_up (base_of e) in
    let aligned_end = round_down (end_of e) in
    if not (e.entry_type == 1) || (length_of e == 0 || leb aligned_end aligned_base)
    then t
    else record t {
      total_2m_pages = add64 t.total_2m_pages ((aligned_end - aligned_base) / page_2m_size);
      total_memory = add64 t.total_memory (length_of e);
    }

unfoldable pub count_entry : E820Entry → Totals → Result Totals
count_entry e t =
    if leb names_of_types e.entry_type
    then fault
    else ok (count_usable e (record t { max_pfn = max t.max_pfn (shr (end_of e) page_2m_shift) }))

unfoldable pub count_entries : List E820Entry → Totals → Result Totals
count_entries [] t = ok t
count_entries (e ∷ es) t = count_entry e t >>= λ t'. count_entries es t'

-- `((max_pfn + 1 + 63) / 64)` words of zeros.
abbrev pub bitmap_words : ℕ → ℕ
bitmap_words max_pfn = (max_pfn + 1 + 63) / 64

abbrev pub new_bitmap : ℕ → List ℕ
new_bitmap max_pfn = replicate (bitmap_words max_pfn) 0

-- `for (pfn = start_pfn; pfn < end_pfn; ++pfn)` sets a bit, with `left` rounds to go.
unfoldable pub mark_run : ℕ → ℕ → List ℕ → Result (List ℕ)
mark_run zero pfn bitmap = ok bitmap
mark_run (suc left) pfn bitmap = set_bit bitmap pfn >>= λ words. mark_run left (pfn + 1) words

-- The pages of an entry that is not usable.
abbrev pub reserved_start : E820Entry → ℕ
reserved_start e = shr (round_up (base_of e)) page_2m_shift

abbrev pub reserved_end : E820Entry → ℕ
reserved_end e = shr (end_of e) page_2m_shift

unfoldable pub reserve_entry : E820Entry → List ℕ → Result (List ℕ)
reserve_entry e bitmap =
    if e.entry_type == 1
    then ok bitmap
    else mark_run (reserved_end e - reserved_start e) (reserved_start e) bitmap

unfoldable pub reserve_entries : List E820Entry → List ℕ → Result (List ℕ)
reserve_entries [] bitmap = ok bitmap
reserve_entries (e ∷ es) bitmap = reserve_entry e bitmap >>= λ words. reserve_entries es words

-- The frame array before any zone owns a part of it: `left` frames from `pfn`.
unfoldable pub new_pages : ℕ → ℕ → List Page
new_pages zero pfn = []
new_pages (suc left) pfn =
    record { zone = none; pfn = pfn; ref_count = 0; flags = page_reserved; page_size = page_2m }
    ∷ new_pages left (pfn + 1)

-- Steps 2 and the preparation of the arrays, as far as the zones: the totals, the bitmap with what is
-- reserved, and the frames.
unfoldable pub prepare : List E820Entry → Result (Totals × (List ℕ × List Page))
prepare es = count_entries es no_totals >>= λ t.
    reserve_entries es (new_bitmap t.max_pfn) >>= λ words.
    ok (t, (words, new_pages (t.max_pfn + 1) 0))
