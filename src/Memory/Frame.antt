-- ===== src/Memory/Frame.antt =====
-- `page_init` of kernel/memory.c: a page frame is taken, or shared, or given further attributes.
pub mod Laws
use knos.Base.{
  ℕ, ◌+◌, Bool, not, ◌||◌, bit_and, bit_or, Option, none, some, Result, ok, halted, ◌>>=◌, in_range,
  get_elem?, set, ◌==◌, if◌then◌else◌,
}
use knos.Base.Word.{u16, sub64}
use knos.Memory.{Page, Manager, page_used, page_user}

-- `flags & mask`, as the conditions of the code read it.
abbrev pub has : ℕ → ℕ → Bool
has flags mask = not (bit_and flags mask == 0)

-- Case 1: a frame that is not in use. Its zone and the manager lose a free page.
take_frame : Manager → ℕ → Page → ℕ → ℕ → Result Manager
take_frame g i p z flags = do
  zone ← in_range (get_elem? g.zones z)
  ok (record g {
    pages = set g.pages i (record p { flags = bit_or flags page_used; ref_count = 1 });
    zones = set g.zones z (record zone { nr_free = sub64 zone.nr_free 1 });
    free_2m_pages = sub64 g.free_2m_pages 1;
  })

-- Case 2, a shared frame, and case 3, further attributes.
update_frame : Page → ℕ → Page
update_frame p flags =
    if has p.flags page_user || has flags page_user
    then record p { flags = bit_or p.flags flags; ref_count = u16 (p.ref_count + 1) }
    else record p { flags = bit_or p.flags flags }

init_frame : Manager → ℕ → Page → Option ℕ → ℕ → Result Manager
unfolding take_frame update_frame
init_frame g i p none flags = halted
init_frame g i p (some z) flags =
    if bit_and p.flags page_used == 0
    then take_frame g i p z flags
    else ok (record g { pages = set g.pages i (update_frame p flags) })

-- The frame is given by its index, `none` for NULL. For a NULL frame, or one with no zone, the code
-- prints a message and halts.
unfoldable pub page_init : Manager → Option ℕ → ℕ → Result Manager
unfolding init_frame
page_init g none flags = halted
page_init g (some i) flags = do p ← in_range (get_elem? g.pages i); init_frame g i p p.zone flags
