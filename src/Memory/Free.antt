-- ===== src/Memory/Free.antt =====
-- `free_pages` of kernel/memory.c.
pub mod Loop
pub mod Keeps
pub mod Correct
use knos.Base.{
  ℕ, zero, suc, ◌+◌, ◌-◌, Option, none, some, ◌∷◌, bit_and, Result, ok, ◌>>=◌, in_range, length,
  get_elem?, set, ltb, leb, ◌==◌, if◌then◌else◌,
}
use knos.Base.Word.{add64}
use knos.Memory.{
  Page, Manager, page_used, invalid_parameters, invalid_frame, unused_page, tlb_flushed,
}
use knos.Memory.Bitmap.{clear_bit}

-- The frame goes back to its zone: `p` is the frame at index `j` with its count already lowered.
unfoldable pub release : Manager → ℕ → ℕ → Page → Result Manager
release g z j p = do
  words ← clear_bit g.bitmap p.pfn
  zone ← in_range (get_elem? g.zones z)
  ok (record g {
    bitmap = words;
    pages = set g.pages j (record p { flags = 0 });
    zones = set g.zones z (record zone { nr_free = add64 zone.nr_free 1 });
    free_2m_pages = add64 g.free_2m_pages 1;
  })

-- One round of the loop, at the frame of index `j`.
unfoldable pub free_frame : Manager → ℕ → ℕ → Page → Result Manager
unfolding release
free_frame g z j p =
    if bit_and p.flags page_used == 0
    then ok (record g { trace = unused_page p.pfn ∷ g.trace })
    else if ltb 1 p.ref_count
    then ok (record g { pages = set g.pages j (record p { ref_count = p.ref_count - 1 }) })
    else release g z j (record p { ref_count = p.ref_count - 1 })

unfoldable pub free_loop : Manager → ℕ → ℕ → ℕ → ℕ → Result Manager
free_loop g z start_pfn zero i = ok g
free_loop g z start_pfn (suc left) i = do
  p ← in_range (get_elem? g.pages (add64 start_pfn i))
  g' ← free_frame g z (add64 start_pfn i) p
  free_loop g' z start_pfn left (i + 1)

free_from : Manager → Page → Option ℕ → ℕ → Result Manager
free_from g p none nr_pages = ok (record g { trace = invalid_frame p.pfn ∷ g.trace })
free_from g p (some z) nr_pages =
    if leb (length g.pages) p.pfn
    then ok (record g { trace = invalid_frame p.pfn ∷ g.trace })
    else (free_loop g z p.pfn nr_pages 0 >>= λ g'.
        ok (record g' { trace = tlb_flushed ∷ g'.trace }))

unfoldable pub free_pages : Manager → Option ℕ → ℕ → Result Manager
unfolding free_from
free_pages g none nr_pages = ok (record g { trace = invalid_parameters nr_pages ∷ g.trace })
free_pages g (some page) nr_pages =
    if nr_pages == 0
    then ok (record g { trace = invalid_parameters nr_pages ∷ g.trace })
    else (in_range (get_elem? g.pages page) >>= λ p. free_from g p p.zone nr_pages)
