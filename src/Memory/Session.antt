-- ===== src/Memory/Session.antt =====
-- The calls of the page allocator behind `init_memory`, in any order.
mod Tests
use mathlib.Core.Path.{subst}
use knos.Base.{ℕ, ◌≡◌, sym, ◌∙◌, Option, List, ok, ok-injective}
use knos.Memory.{ZoneType, Manager}
use knos.Memory.WellFormed.{IsWellFormed}
use knos.Memory.Alloc.{alloc_pages}
use knos.Memory.Alloc.Keeps.{alloc_pages-IsWellFormed}
use knos.Memory.Free.{free_pages}
use knos.Memory.Free.Keeps.{free_pages-IsWellFormed}
use knos.Memory.E820.{E820Entry}
use knos.Memory.Init.{stored_entries, Initialised, init_memory}
use knos.Memory.Init.Correct.{IsBootable, init_memory_lem}

-- A call that returned, with any arguments.
pub data Call : Manager → Manager → Type 0 where
  allocated :
      {g h : Manager} (t : ZoneType) (nr flags : ℕ) (page : Option ℕ)
      → alloc_pages g t nr flags ≡ ok (page, h)
      → Call g h
  freed : {g h : Manager} (page : Option ℕ) (nr : ℕ) → free_pages g page nr ≡ ok h → Call g h

pub data Calls (g : Manager) : Manager → Type 0 where
  start : Calls g g
  more : {h k : Manager} → Calls g h → Call h k → Calls g k

Call-IsWellFormed : {g h : Manager} → Call g h → IsWellFormed g → IsWellFormed h
Call-IsWellFormed {g} (allocated t nr flags page e) wf =
    alloc_pages-IsWellFormed g t nr flags page wf e
Call-IsWellFormed {g} (freed page nr e) wf = free_pages-IsWellFormed g page nr wf e

pub Calls-IsWellFormed : {g h : Manager} → Calls g h → IsWellFormed g → IsWellFormed h
Calls-IsWellFormed start wf = wf
Calls-IsWellFormed (more calls call) wf = Call-IsWellFormed call (Calls-IsWellFormed calls wf)

-- From a memory map that `init_memory` can work with, every manager that any calls of `alloc_pages` and
-- `free_pages` reach, in any order and with any arguments, is well-formed.
pub reached-IsWellFormed :
    (end_krnl : ℕ) (pml4 : List ℕ) (entries : List E820Entry) (s t : ℕ) (r : Initialised)
    (h : Manager)
    → IsBootable end_krnl (stored_entries entries) s t
    → init_memory end_krnl pml4 entries ≡ ok r
    → Calls r.manager h
    → IsWellFormed h
reached-IsWellFormed end_krnl pml4 entries s t r h boot e calls =
    let (r', e', is) = init_memory_lem end_krnl pml4 entries s t boot in
    Calls-IsWellFormed calls
      (subst (λ x. IsWellFormed x.manager) (ok-injective (sym e' ∙ e)) is.well_formed)
