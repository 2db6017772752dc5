-- ===== src/Memory/E820/Reserved.antt =====
-- What `init_memory` of kernel/memory.c marks before it builds the zones: the pages of the memory that
-- is not usable, and no others.
use native.Mathlib.Decide.{dec_lt}
use knos.Base.{
  ℕ, zero, suc, ◌+◌, ◌-◌, ◌*◌, ◌/◌, ◌%◌, ◌^◌, ◌≤◌, ◌<◌, ◌≡◌, refl, ap, sym, ◌∙◌, none, some, inl,
  inr, Bool, true, false, not, ◌&&◌, ◌||◌, Bool-cases, List, [], ◌∷◌, ok, arith, length, get_elem?,
  replicate, length-replicate, ltb, leb, ◌==◌, if◌then◌else◌, max,
}
use knos.Base.Bits.{bit-zero}
use knos.Memory.{Page, page_reserved, page_2m}
use knos.Memory.Bitmap.Laws.{marked, word_bit, set_bit_lem}
use knos.Memory.Bitmap.Run.{IsMarkedRun, IsMarkedRun-nil, IsMarkedRun-cons}
use knos.Memory.E820.{
  E820Entry, Totals, no_totals, reserved_start, reserved_end, names_of_types, count_usable,
  count_entry, count_entries, bitmap_words, new_bitmap, mark_run, reserve_entry, reserve_entries,
  new_pages, prepare,
}

mark_run_lem :
    (n first : ℕ) (words : List ℕ)
    → (1 ≤ n → first + n ≤ 64 * length words)
    → (r : List ℕ) × (mark_run n first words ≡ ok r) × IsMarkedRun words n first r
unfolding mark_run
mark_run_lem zero first words fits = (words, refl, IsMarkedRun-nil first words)
mark_run_lem (suc n) first words fits =
    let below : first + suc n ≤ 64 * length words = fits (omega arith) in
    let (w, e, one) = set_bit_lem words first (omega arith) in
    let (r, e', rest) =
      mark_run_lem n (first + 1) w (λ some_left. omega (arith, one.same_length)) in
    (r, rw e e', IsMarkedRun-cons n first one rest)

-- Where an entry starts and ends, as uint64_t, by the firmware's halves of its base and length.
abbrev pub start_address : E820Entry → ℕ
start_address e = (e.base_addr_high * 2 ^ 32 + e.base_addr_low) % 2 ^ 64

abbrev pub end_address : E820Entry → ℕ
end_address e =
    (e.base_addr_high * 2 ^ 32 + e.base_addr_low + (e.length_high * 2 ^ 32 + e.length_low)) % 2 ^ 64

-- Whether an entry reserves a page of 2 MB: it is not usable, and the page lies inside it as a whole.
-- (An entry that starts in the last 2 MB of the address space counts as if it started at 0.)
unfoldable pub reserves : E820Entry → ℕ → Bool
reserves e q =
    not (e.entry_type == 1)
    && ((leb (start_address e) (q * 2 ^ 21) || leb (2 ^ 64) (start_address e + (2 ^ 21 - 1)))
        && leb ((q + 1) * 2 ^ 21) (end_address e))

unfoldable pub is_reserved : List E820Entry → ℕ → Bool
is_reserved [] q = false
is_reserved (e ∷ es) q = reserves e q || is_reserved es q

-- Every entry's type has a name in `memory_type_array`.
unfoldable pub AreNamed : List E820Entry → Type 0
AreNamed [] = 0 ≤ 0
AreNamed (e ∷ es) = (e.entry_type < names_of_types) × AreNamed es

-- Every entry ends at or below a page.
unfoldable pub EndBy : ℕ → List E820Entry → Type 0
EndBy n [] = 0 ≤ 0
EndBy n (e ∷ es) = (reserved_end e ≤ n) × EndBy n es

-- The run of an entry in terms of the test.
run_mark :
    (words result : List ℕ) (low high q : ℕ)
    → IsMarkedRun words (high - low) low result
    → marked result q ≡ (if leb low q && ltb q high then 1 else marked words q)
run_mark words result low high q run = elim (Bool-cases (leb low q && ltb q high)) [
  | inl inside ↦ rw inside (run.inside q (ground arith) (ground arith))
  | inr outside ↦
      rw outside
        (run.outside q (elim (dec_lt q low) [ yes lt ↦ inl lt | no le ↦ inr (ground arith) ]))
]

-- The loop's bounds are those of the whole pages.
reserves_kept :
    (e : E820Entry) (q : ℕ)
    → (e.entry_type == 1) ≡ false
    → reserves e q ≡ (leb (reserved_start e) q && ltb q (reserved_end e))
unfolding reserves
reserves_kept e q kept = ground arith

reserves_usable : (e : E820Entry) (q : ℕ) → (e.entry_type == 1) ≡ true → reserves e q ≡ false
unfolding reserves
reserves_usable e q usable = ground arith

reserve_entry_lem :
    (e : E820Entry) (words : List ℕ)
    → reserved_end e ≤ 64 * length words
    → (r : List ℕ) × (reserve_entry e words ≡ ok r)
      × (length r ≡ length words)
      × ((q : ℕ) → marked r q ≡ (if reserves e q then 1 else marked words q))
unfolding reserve_entry
reserve_entry_lem e words fits = elim (Bool-cases (e.entry_type == 1)) [
  | inl usable ↦ rw usable (
    words,
    refl,
    refl,
    λ q. ap (λ inside. if inside then 1 else marked words q) (sym (reserves_usable e q usable)),
  )
  | inr kept ↦
      let (r, e', run) =
        mark_run_lem (reserved_end e - reserved_start e) (reserved_start e) words
          (λ some. omega arith) in
      rw kept (
        r,
        e',
        run.same_length,
        λ q.
            run_mark words r (reserved_start e) (reserved_end e) q run
            ∙ ap (λ inside. if inside then 1 else marked words q) (sym (reserves_kept e q kept)),
      )
]

if-or : (a b : Bool) (n : ℕ) → (if b then 1 else if a then 1 else n) ≡ (if a || b then 1 else n)
if-or true true n = refl
if-or true false n = refl
if-or false true n = refl
if-or false false n = refl

reserve_entries_lem :
    (es : List E820Entry) (words : List ℕ)
    → EndBy (64 * length words) es
    → (r : List ℕ) × (reserve_entries es words ≡ ok r)
      × (length r ≡ length words)
      × ((q : ℕ) → marked r q ≡ (if is_reserved es q then 1 else marked words q))
unfolding reserve_entries is_reserved EndBy
reserve_entries_lem [] words ends = (words, refl, refl, λ q. refl)
reserve_entries_lem (e ∷ es) words (here, ends) =
    let (w, done, same, one) = reserve_entry_lem e words here in
    let (r, done', same', rest) = reserve_entries_lem es w (rw same ends) in
    (
      r,
      rw done done',
      same' ∙ same,
      λ q.
          rest q
          ∙ (ap (λ m. if is_reserved es q then 1 else m) (one q)
              ∙ if-or (reserves e q) (is_reserved es q) (marked words q)),
    )

-- The totals cover every entry.
EndBy-mono : (m n : ℕ) (es : List E820Entry) → m ≤ n → EndBy m es → EndBy n es
unfolding EndBy
EndBy-mono m n [] le h = h
EndBy-mono m n (e ∷ es) le (h, hs) = (omega arith, EndBy-mono m n es le hs)

if-max_pfn :
    (test : Bool) (t u : Totals)
    → u.max_pfn ≡ t.max_pfn
    → (if test then t else u).max_pfn ≡ t.max_pfn
if-max_pfn true t u h = refl
if-max_pfn false t u h = h

count_entry_lem :
    (e : E820Entry) (t : Totals)
    → e.entry_type < names_of_types
    → (t' : Totals) × (count_entry e t ≡ ok t') × (t'.max_pfn ≡ max t.max_pfn (reserved_end e))
unfolding count_entry count_usable
count_entry_lem e t named =
    let known : leb names_of_types e.entry_type ≡ false = ground arith in
    let seen = record t { max_pfn = max t.max_pfn (reserved_end e) } in
    (count_usable e seen, rw known refl, if-max_pfn _ seen _ refl)

-- The number of the 2 MB page in which the entry that ends last ends, usable or not.
unfoldable pub top_pfn : List E820Entry → ℕ
top_pfn [] = 0
top_pfn (e ∷ es) = max (end_address e / 2 ^ 21) (top_pfn es)

pub EndBy-top_pfn : (es : List E820Entry) → EndBy (top_pfn es) es
unfolding EndBy top_pfn
EndBy-top_pfn [] = omega arith
EndBy-top_pfn (e ∷ es) =
    (omega arith, EndBy-mono (top_pfn es) (top_pfn (e ∷ es)) es (omega arith) (EndBy-top_pfn es))

-- A 64-bit address has fewer than 2 ^ 43 pages below it.
pub top_pfn-lt : (es : List E820Entry) → top_pfn es < 2 ^ 43
unfolding top_pfn
top_pfn-lt [] = omega arith
top_pfn-lt (e ∷ es) = omega (arith, top_pfn-lt es)

count_entries_lem :
    (es : List E820Entry) (t : Totals)
    → AreNamed es
    → (t' : Totals) × (count_entries es t ≡ ok t') × (t'.max_pfn ≡ max t.max_pfn (top_pfn es))
unfolding count_entries AreNamed top_pfn
count_entries_lem [] t named = (t, refl, omega arith)
count_entries_lem (e ∷ es) t (named, others) =
    let (t1, done, top) = count_entry_lem e t named in
    let (t2, done', top') = count_entries_lem es t1 others in
    (t2, rw done done', omega (arith, top, top'))

new-unmarked : (n i b : ℕ) → word_bit (get_elem? (replicate n 0) i) b ≡ 0
new-unmarked zero i b = refl
new-unmarked (suc n) zero b = bit-zero b
new-unmarked (suc n) (suc i) b = new-unmarked n i b

unmarked : (top q : ℕ) → marked (new_bitmap top) q ≡ 0
unfolding marked
unmarked top q = new-unmarked (bitmap_words top) (q / 64) (q % 64)

length-new_pages : (n pfn : ℕ) → length (new_pages n pfn) ≡ n
unfolding new_pages
length-new_pages zero pfn = refl
length-new_pages (suc n) pfn = ap suc (length-new_pages n (pfn + 1))

pub prepare_run :
    (es : List E820Entry)
    → AreNamed es
    → (t : Totals) × (words : List ℕ) × (pages : List Page) × (prepare es ≡ ok (t, (words, pages)))
      × (t.max_pfn ≡ top_pfn es)
      × (length words ≡ bitmap_words t.max_pfn)
      × ((q : ℕ) → marked words q ≡ (if is_reserved es q then 1 else 0))
      × (pages ≡ new_pages (t.max_pfn + 1) 0)
      × (length pages ≡ t.max_pfn + 1)
unfolding prepare
prepare_run es named =
    let (t, counted, top) = count_entries_lem es no_totals named in
    let words = new_bitmap t.max_pfn in
    let size : length words ≡ bitmap_words t.max_pfn = length-replicate _ 0 in
    let ends =
      EndBy-mono (top_pfn es) (64 * length words) es (omega (arith, size, top))
        (EndBy-top_pfn es) in
    let (r, done, same, marks) = reserve_entries_lem es words ends in
    (
      t,
      r,
      new_pages (t.max_pfn + 1) 0,
      rw (counted, done) refl,
      omega (arith, top),
      same ∙ size,
      λ q. marks q ∙ ap (λ m. if is_reserved es q then 1 else m) (unmarked t.max_pfn q),
      refl,
      length-new_pages (t.max_pfn + 1) 0,
    )

-- The frame of a page that no zone owns.
abbrev pub new_page : ℕ → Page
new_page pfn = record {
  zone = none;
  pfn = pfn;
  ref_count = 0;
  flags = page_reserved;
  page_size = page_2m;
}

get_elem?-new_pages : (n lo i : ℕ) → i < n → get_elem? (new_pages n lo) i ≡ some (new_page (lo + i))
unfolding new_pages
get_elem?-new_pages zero lo i lt = absurd (omega arith)
get_elem?-new_pages (suc n) lo zero lt = ap (λ k. some (new_page k)) (omega arith)
get_elem?-new_pages (suc n) lo (suc i) lt =
    get_elem?-new_pages n (lo + 1) i (omega arith) ∙ ap (λ k. some (new_page k)) (omega arith)

-- If every entry's type is below 5, the preparation of the arrays does not fault: `max_pfn` is the
-- number of the 2 MB page in which the entry that ends last ends, the bitmap has a word for each 64
-- pages up to it, the mark of a page is 1 just if the page lies as a whole inside an entry that is not
-- usable (`reserves`, which says what an entry in the last 2 MB of the address space does), and each
-- page up to `max_pfn` has a frame with its number, reserved and in no zone.
pub prepare_lem :
    (es : List E820Entry)
    → AreNamed es
    → (t : Totals) × (words : List ℕ) × (pages : List Page) × (prepare es ≡ ok (t, (words, pages)))
      × (t.max_pfn ≡ top_pfn es)
      × (64 * length words < t.max_pfn + 1 + 64)
      × (t.max_pfn < 64 * length words)
      × ((q : ℕ) → marked words q ≡ (if is_reserved es q then 1 else 0))
      × (length pages ≡ t.max_pfn + 1)
      × ((i : ℕ) → i ≤ t.max_pfn → get_elem? pages i ≡ some (new_page i))
prepare_lem es named =
    let (t, words, pages, run, top, size, marks, new, count) = prepare_run es named in
    (
      t,
      words,
      pages,
      run,
      top,
      omega (arith, size),
      omega (arith, size),
      marks,
      count,
      λ i le.
          ap (λ ps. get_elem? ps i) new
          ∙ (get_elem?-new_pages (t.max_pfn + 1) 0 i (omega arith)
              ∙ ap (λ k. some (new_page k)) (omega arith)),
    )
