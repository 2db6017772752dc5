-- ===== src/Memory/Bitmap.antt =====
-- The page bitmap: one bit for each page frame, 64 to a word. These are the statements
-- `bitmap.addr[pfn / 64] |= 1UL << (pfn % 64)` and `&= ~(1UL << (pfn % 64))` of kernel/memory.c.
pub mod Laws
pub mod Run
use knos.Base.{ℕ, ◌/◌, ◌%◌, bit_and, bit_or, List, Result, ok, ◌>>=◌, in_range, get_elem?, set}
use knos.Base.Word.{not64, shl64}

unfoldable pub set_bit : List ℕ → ℕ → Result (List ℕ)
set_bit words pfn = do
  w ← in_range (get_elem? words (pfn / 64))
  ok (set words (pfn / 64) (bit_or w (shl64 1 (pfn % 64))))

unfoldable pub clear_bit : List ℕ → ℕ → Result (List ℕ)
clear_bit words pfn = do
  w ← in_range (get_elem? words (pfn / 64))
  ok (set words (pfn / 64) (bit_and w (not64 (shl64 1 (pfn % 64)))))
