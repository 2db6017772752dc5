-- ===== src/Memory/Blocks/Refine.antt =====
-- The bitmap of kernel/memory.c accounts for the blocks that a client holds.
use knos.Base.{ℕ, ◌≡◌, some, List, ◌∷◌, ok, get_elem?}
use knos.Memory.{Manager, tlb_flushed}
use knos.Memory.WellFormed.{IsWellFormed}
use knos.Memory.Free.{free_pages}
use knos.Memory.Blocks.{Block, remove, AreCounts, Holds, start, refused, got, gave}
use knos.Memory.Blocks.Held.{Refines}
use knos.Memory.Blocks.Got.{got-Refines, refused-Refines, start-Refines}
use knos.Memory.Blocks.Gave.{give_back, gave-Refines}

-- Whatever a client asks for and gives back, in any order, from a well-formed manager on, where it asks
-- for 1 to 64 pages while the counts are believable: the manager stays well-formed, and a page's mark
-- is what it was at the start, and one more for each block that the client holds and that has the
-- page. So the client's blocks share no page, take none that was marked before, and leave the marks as
-- they were when all are given back.
pub Holds-Refines :
    {g h : Manager} {bs : List Block} → IsWellFormed g → Holds g bs h → Refines g bs h
Holds-Refines wf start = start-Refines wf
Holds-Refines wf (refused t nr flags calls fair pos small e) =
    refused-Refines t nr flags (Holds-Refines wf calls) fair pos small e
Holds-Refines wf (got t nr flags b calls fair pos small e) =
    got-Refines t nr flags b (Holds-Refines wf calls) fair pos small e
Holds-Refines wf (gave i b calls counts at_i e) =
    gave-Refines i b (Holds-Refines wf calls) counts at_i e

-- A client that holds a block can give it back: however it came to its blocks, as in `Holds`, and where
-- the counts are 64-bit numbers, the call of `free_pages` with the block's first frame and length
-- returns.
pub free_pages-Holds :
    {g h : Manager} {bs : List Block} (i : ℕ) (b : Block)
    → IsWellFormed g
    → Holds g bs h
    → AreCounts h
    → get_elem? bs i ≡ some b
    → (k : Manager) × (free_pages h (some b.first) b.count ≡ ok k) × Refines g (remove i bs) k
free_pages-Holds {g} {h} i b wf calls counts at_i =
    let is = Holds-Refines wf calls in
    let (z, zone, k, run, released) = give_back i b is counts at_i in
    (record k { trace = tlb_flushed ∷ k.trace }, run, gave-Refines i b is counts at_i run)
