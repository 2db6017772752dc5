-- ===== src/Boot/Kernel/Runs.antt =====
-- `Start_Kernel` of kernel/main.c reaches its loop of `hlt`.
use knos.Base.{
  ℕ, ◌+◌, ◌/◌, ◌<◌, ◌≡◌, inl, inr, refl, ap, ◌∙◌, true, Bool-cases, Option, none, some, List, [],
  Result, ok, arith, length, get_elem?, get_elem?_of_lt, lt_of_get_elem?,
}
use knos.Printk.Number.{codes}
use knos.Printk.Vsnprintf.Strings.{AreShort}
use knos.Printk.Console.{Geometry, Console}
use knos.Printk.Console.Frame.{IsGrid}
use knos.Memory.{Page, Zone, Manager, normal}
use knos.Memory.WellFormed.{IsWellFormed}
use knos.Memory.Frame.Laws.{taken}
use knos.Memory.Alloc.{alloc_pages}
use knos.Memory.Alloc.Correct.{HasFairCounts, IsAllocated, alloc_pages_lem}
use knos.Memory.Alloc.Keeps.{alloc_pages-IsWellFormed}
use knos.Memory.Free.{free_pages}
use knos.Memory.Free.Keeps.{free_pages-IsWellFormed}
use knos.Memory.Lifecycle.{free_pages-alloc_pages}
use knos.Boot.{test_pages, test_flags}
use knos.Boot.Correct.{AreWithin}
use knos.Printk.Vsnprintf.Demand.{demand, character_demand, specification_demand}
use knos.Boot.Script.{Call, logk_call, say, say_all}
use knos.Boot.Script.Fine.{calls_met}
use knos.Boot.Lines.{allocated_lines, word_lines, frame_lines, reaches_next, blue, green}
use knos.Boot.Kernel.{next_word, show_allocated, release_pages, test_memory}
use knos.Boot.Kernel.Prints.{
  longest_string, In, Shows, say_all-Shows, say-Shows, allocated_met, release_met,
}

-- All that `Start_Kernel` reads of a frame that it got, before and after it is given back.
record IsTried (b : ℕ) (h : Manager) : Type 0 where
  p : Page
  word : ℕ
  next : ℕ
  k : Manager
  q : Page
  word' : ℕ
  next' : ℕ
  at_b : get_elem? h.pages b ≡ some p
  number : p.pfn ≡ b
  here : get_elem? h.bitmap (b / 64) ≡ some word
  there : get_elem? h.bitmap (b / 64 + 1) ≡ some next
  freed : free_pages h (some b) test_pages ≡ ok k
  well_formed : IsWellFormed k
  at_b' : get_elem? k.pages b ≡ some q
  number' : q.pfn ≡ b
  here' : get_elem? k.bitmap (b / 64) ≡ some word'
  there' : get_elem? k.bitmap (b / 64 + 1) ≡ some next'

module _ {g : Manager} {z : ℕ} {zone : Zone} {b : ℕ} {h : Manager}
    (a : IsAllocated g normal test_pages test_flags z zone b h) (wf : IsWellFormed g)
    (fair : HasFairCounts g) (within : AreWithin g)
    (e : alloc_pages g normal test_pages test_flags ≡ ok (some b, h)) where
  allocated-IsTried : IsTried b h
  allocated-IsTried =
      let last = within z zone a.at_z in
      let (p, at_b, back) = (wf.placed z zone a.at_z).frames b a.above (omega (arith, a.below)) in
      let same = a.effect.shape in
      let room : b / 64 + 1 < length h.bitmap =
        omega (arith, a.below, last, wf.covers, same.bitmap_same) in
      let (word, here) = get_elem?_of_lt h.bitmap (b / 64) (omega arith) in
      let (next, there) = get_elem?_of_lt h.bitmap (b / 64 + 1) room in
      let (z', zone', k, at_z', run, r) =
        free_pages-alloc_pages normal test_pages test_flags b h wf fair (omega arith) (omega arith)
          e in
      let wf_h = alloc_pages-IsWellFormed g normal test_pages test_flags (some b) wf e in
      let wf_k = free_pages-IsWellFormed h (some b) test_pages wf_h run in
      let (last_p, at_end) = get_elem?_of_lt g.pages zone.end_pfn last in
      let end_kept = r.frames_out zone.end_pfn (inr (omega (arith, a.below))) ∙ at_end in
      let long = lt_of_get_elem? k.pages zone.end_pfn last_p end_kept in
      let room' : b / 64 + 1 < length k.bitmap = omega (arith, a.below, long, wf_k.covers) in
      let (word', here') = get_elem?_of_lt k.bitmap (b / 64) (omega arith) in
      let (next', there') = get_elem?_of_lt k.bitmap (b / 64 + 1) room' in
      let number = wf.numbered b p at_b in
      record {
        p = taken p test_flags;
        word = word;
        next = next;
        k = k;
        q = record p { ref_count = 0; flags = 0 };
        word' = word';
        next' = next';
        at_b = a.effect.frames_in b p (omega arith) (omega arith) at_b;
        number = number;
        here = here;
        there = there;
        freed = run;
        well_formed = wf_k;
        at_b' = r.frames_in b p (omega arith) (omega arith) at_b;
        number' = number;
        here' = here';
        there' = there';
      }

next_word_lem :
    (bitmap_word pfn word : ℕ) (bitmap : List ℕ)
    → get_elem? bitmap (bitmap_word + 1) ≡ some word
    → (n : ℕ) × (next_word bitmap_word pfn bitmap ≡ ok n)
next_word_lem bitmap_word pfn word bitmap there = elim (Bool-cases (reaches_next pfn)) [
  | inl further ↦ (word, rw (further, there) refl)
  | inr inside ↦ (0, rw inside refl)
]

module _ (font : ℕ → ℕ → ℕ) (string_at : ℕ → List ℕ) (g : Geometry) where
  abbrev before_lines : ℕ → ℕ → ℕ → ℕ → List Call
  before_lines = word_lines blue (codes "Before freeing - bitmap[%lu]: %#018lx\n")

  abbrev after_lines : ℕ → ℕ → ℕ → ℕ → List Call
  after_lines = word_lines green (codes "After freeing - bitmap[%lu]: %#018lx\n")

  allocated_run :
      (b word next : ℕ) (h : Manager) (p : Page) (s s1 : Console)
      → get_elem? h.pages b ≡ some p
      → get_elem? h.bitmap (p.pfn / 64) ≡ some word
      → get_elem? h.bitmap (p.pfn / 64 + 1) ≡ some next
      → say_all font g string_at (allocated_lines p.pfn word next) s ≡ ok s1
      → show_allocated font string_at g (some b) h s ≡ ok s1
  unfolding show_allocated
  allocated_run b word next h p s s1 at_b here there said = rw (at_b, here, there) said

  release_run :
      (b word next word' next' : ℕ) (h k : Manager) (p q c : Page) (s s1 s2 s3 : Console)
      → get_elem? h.pages b ≡ some p
      → get_elem? h.bitmap (p.pfn / 64) ≡ some word
      → next_word (p.pfn / 64) p.pfn h.bitmap ≡ ok next
      → say_all font g string_at (before_lines (p.pfn / 64) p.pfn word next) s ≡ ok s1
      → free_pages h (some b) test_pages ≡ ok k
      → get_elem? k.pages b ≡ some q
      → get_elem? k.bitmap (p.pfn / 64) ≡ some word'
      → next_word (p.pfn / 64) q.pfn k.bitmap ≡ ok next'
      → say_all font g string_at (after_lines (p.pfn / 64) q.pfn word' next') s1 ≡ ok s2
      → get_elem? k.pages q.pfn ≡ some c
      → say_all font g string_at (frame_lines c) s2 ≡ ok s3
      → release_pages font string_at g (some b) h s ≡ ok (s3, k)
  unfolding release_pages
  release_run b word next word' next' h k p q c s s1 s2 s3 at_b here there before freed at_b' here'
        there' after checked frame =
      rw (at_b, here, there, before, freed, at_b', here', there', after, checked, frame) refl

module _ (font : ℕ → ℕ → ℕ) (g : Geometry) (columns rows : ℕ) (grid : IsGrid g columns rows)
    (string_at : ℕ → List ℕ) (brief : AreShort string_at longest_string) where
  abbrev Is : Console → Type 0
  Is s = In font g columns rows grid string_at brief s

  -- The code returns with the screen and a well-formed manager.
  abbrev pub Ends : Result (Console × Manager) → Type 0
  Ends r = (s : Console) × (k : Manager) × (r ≡ ok (s, k)) × Is s × IsWellFormed k

  abbrev saying :
      (cs : List Call) (s : Console)
      → calls_met longest_string cs ≡ true
      → Is s
      → Shows font g columns rows grid string_at brief (say_all font g string_at cs s)
  saying = say_all-Shows font g columns rows grid string_at brief

  show_allocated-Shows :
      (b : ℕ) (h : Manager) (s : Console)
      → IsTried b h
      → Is s
      → Shows font g columns rows grid string_at brief
          (show_allocated font string_at g (some b) h s)
  show_allocated-Shows b h s t is =
      let (s1, said, is1) =
        saying (allocated_lines t.p.pfn t.word t.next) s (allocated_met t.p.pfn t.word t.next) is in
      (
        s1,
        allocated_run font string_at g b t.word t.next h t.p s s1 t.at_b
            (ap (λ n. get_elem? h.bitmap (n / 64)) t.number ∙ t.here)
            (ap (λ n. get_elem? h.bitmap (n / 64 + 1)) t.number ∙ t.there) said,
        is1,
      )

  release_pages-Ends :
      (b : ℕ) (h : Manager) (s : Console)
      → IsTried b h
      → Is s
      → Ends (release_pages font string_at g (some b) h s)
  release_pages-Ends b h s t is =
      let w = t.p.pfn / 64 in
      let same = t.number in
      let there = ap (λ n. get_elem? h.bitmap (n / 64 + 1)) same ∙ t.there in
      let there' = ap (λ n. get_elem? t.k.bitmap (n / 64 + 1)) same ∙ t.there' in
      let (n, before) = next_word_lem w t.p.pfn t.next h.bitmap there in
      let (n', after) = next_word_lem w t.q.pfn t.next' t.k.bitmap there' in
      let (met1, met2, met3) = release_met blue green w t.p.pfn t.word n t.q.pfn t.word' n' t.q in
      let (s1, said1, is1) = saying (before_lines font string_at g w t.p.pfn t.word n) s met1 is in
      let (s2, said2, is2) =
        saying (after_lines font string_at g w t.q.pfn t.word' n') s1 met2 is1 in
      let (s3, said3, is3) = saying (frame_lines t.q) s2 met3 is2 in
      (
        s3,
        t.k,
        release_run font string_at g b t.word n t.word' n' h t.k t.p t.q t.q s s1 s2 s3 t.at_b
            (ap (λ n. get_elem? h.bitmap (n / 64)) same ∙ t.here) before said1 t.freed t.at_b'
            (ap (λ n. get_elem? t.k.bitmap (n / 64)) same ∙ t.here') after said2
            (ap (λ n. get_elem? t.k.pages n) t.number' ∙ t.at_b') said3,
        is3,
        t.well_formed,
      )

  test_memory_run :
      (page : Option ℕ) (h h' k : Manager) (s s1 s2 s3 s4 : Console)
      → say font g string_at
          (logk_call (codes "Attempting to allocate 64 pages from ZONE_NORMAL\n") [])
          s
        ≡ ok s1
      → alloc_pages h normal test_pages test_flags ≡ ok (page, h')
      → show_allocated font string_at g page h' s1 ≡ ok s2
      → say font g string_at (logk_call (codes "\nTesting page deallocation...\n") []) s2 ≡ ok s3
      → release_pages font string_at g page h' s3 ≡ ok (s4, k)
      → test_memory font string_at g h s ≡ ok (s4, k)
  unfolding test_memory
  test_memory_run page h h' k s s1 s2 s3 s4 attempt got shown testing released =
      rw (attempt, got, shown, testing, released) refl

  -- `page` is what the allocation returned.
  test_page-Ends :
      (page : Option ℕ) (h h' : Manager) (s : Console)
      → alloc_pages h normal test_pages test_flags ≡ ok (page, h')
      → ((s : Console)
          → Is s
          → Shows font g columns rows grid string_at brief
              (show_allocated font string_at g page h' s))
      → ((s : Console) → Is s → Ends (release_pages font string_at g page h' s))
      → Is s
      → Ends (test_memory font string_at g h s)
  unfolding demand character_demand specification_demand
  test_page-Ends page h h' s got shows ends is =
      let (s1, attempt, is1) = say-Shows font g columns rows grid string_at brief _ s refl is in
      let (s2, shown, is2) = shows s1 is1 in
      let (s3, testing, is3) = say-Shows font g columns rows grid string_at brief _ s2 refl is2 in
      let (s4, k, released, is4, wf) = ends s3 is3 in
      (s4, k, test_memory_run page h h' k s s1 s2 s3 s4 attempt got shown testing released, is4, wf)

  refused-Ends :
      (h h' : Manager) (s : Console)
      → IsWellFormed h
      → alloc_pages h normal test_pages test_flags ≡ ok (none, h')
      → Is s
      → Ends (test_memory font string_at g h s)
  unfolding show_allocated release_pages demand character_demand specification_demand
  refused-Ends h h' s wf got is =
      test_page-Ends none h h' s got
        (λ s is. say-Shows font g columns rows grid string_at brief _ s refl is)
        (λ s is.
          (s, h', refl, is, alloc_pages-IsWellFormed h normal test_pages test_flags none wf got))
        is

  pub test_memory-Ends :
      (h : Manager) (s : Console)
      → IsWellFormed h
      → HasFairCounts h
      → AreWithin h
      → Is s
      → Ends (test_memory font string_at g h s)
  test_memory-Ends h s wf fair within is =
      elim (alloc_pages_lem normal test_pages test_flags wf fair (omega arith) (omega arith)) [
        | inl (none_left, e) ↦ refused-Ends h _ s wf e is
        | inr (inl (z, zone, at_z, offered, first, e)) ↦ refused-Ends h _ s wf e is
        | inr (inr (z, zone, b, h', e, a)) ↦
            let t = allocated-IsTried a wf fair within e in
            test_page-Ends (some b) h h' s e (λ s is. show_allocated-Shows b h' s t is)
              (λ s is. release_pages-Ends b h' s t is) is
      ]
