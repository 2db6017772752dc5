-- ===== src/Memory/Blocks/Held.antt =====
-- What the bitmap and the frames of kernel/memory.c say of the blocks that a client holds.
use knos.Base.{ℕ, ◌+◌, ◌≤◌, ◌<◌, ◌≡◌, ◌∙◌, some, List, arith, length, get_elem?}
use knos.Memory.{Page, Manager}
use knos.Memory.WellFormed.{IsWellFormed}
use knos.Memory.Bitmap.Laws.{marked, marked-le-one}
use knos.Memory.Free.Loop.{AreOwned}
use knos.Memory.Blocks.{Block, cover_count}
use knos.Memory.Blocks.Counts.{cover_count-at, covers-inside}

-- The block's pages are in use by the client alone, and start in a zone.
pub record IsHeld (h : Manager) (b : Block) : Type 0 where
  pub some_page : 0 < b.count
  pub inside : b.first + b.count ≤ length h.pages
  pub owned : AreOwned h b.first b.count
  pub zoned : (z : ℕ) × (p : Page) × (get_elem? h.pages b.first ≡ some p) × (p.zone ≡ some z)

-- The manager `h` refines the list of blocks: a page's mark is what it was in `g`, and one more for
-- each block that has the page. A mark is 0 or 1, so the blocks share no page, and take none that was
-- marked in `g`.
pub record Refines (g : Manager) (bs : List Block) (h : Manager) : Type 0 where
  pub well_formed : IsWellFormed h
  pub bits : (q : ℕ) → marked h.bitmap q ≡ marked g.bitmap q + cover_count bs q
  pub held : (i : ℕ) (b : Block) → get_elem? bs i ≡ some b → IsHeld h b

-- A block keeps its pages if its frames stay as they are.
pub IsHeld-kept :
    (h k : Manager) (b : Block)
    → length k.pages ≡ length h.pages
    → ((q : ℕ) → b.first ≤ q → q < b.first + b.count → get_elem? k.pages q ≡ get_elem? h.pages q)
    → IsHeld h b
    → IsHeld k b
IsHeld-kept h k b size same held = record {
  some_page = held.some_page;
  inside = omega (arith, size, held.inside);
  owned = λ q lo hi.
      let (p, at_q, number, own) = held.owned q lo hi in (p, same q lo hi ∙ at_q, number, own);
  zoned =
      let (z, p, at_b, back) = held.zoned in
      (z, p, same b.first (omega arith) (omega (arith, held.some_page)) ∙ at_b, back);
}

-- A page of a block is marked.
pub held-marked :
    {g h : Manager} {bs : List Block} (i : ℕ) (b : Block) (q : ℕ)
    → Refines g bs h
    → get_elem? bs i ≡ some b
    → b.first ≤ q
    → q < b.first + b.count
    → marked h.bitmap q ≡ 1
held-marked {g} {h} {bs} i b q is at_i lo hi = omega (
  arith,
  is.bits q,
  cover_count-at bs i b q at_i,
  covers-inside b q lo hi,
  marked-le-one h.bitmap q,
)
