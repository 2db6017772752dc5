-- ===== src/Memory/Frame/Laws.antt =====
-- `page_init` on each of its branches.
use mathlib.Core.Path.{subst}
use knos.Base.{
  ℕ, ◌≡◌, ◌≢◌, refl, ◌∙◌, inl, inr, Bool, true, false, bit_and, bit_or, Option, none, some, ok,
  ◌>>=◌, in_range, arith, get_elem?, set, ◌==◌, if◌then◌else◌, Bool-cases, >>=-ok, in_range-ok,
  ok-injective, map-set_same, get_elem?-set_ne,
}
use knos.Base.Word.{sub64}
use knos.Memory.{Page, Zone, Manager, page_used}
use knos.Memory.WellFormed.{Unused, SameShape, page_shape, zone_shape}
use knos.Memory.Frame.{page_init, init_frame, take_frame, update_frame}

-- A frame after it is taken: in use, with one reference.
abbrev pub taken : Page → ℕ → Page
taken p flags = record p { flags = bit_or flags page_used; ref_count = 1 }

-- A zone with one free page less.
abbrev pub minus_one : Zone → Zone
minus_one zone = record zone { nr_free = sub64 zone.nr_free 1 }

module _ (g : Manager) (i : ℕ) (p : Page) (z : ℕ) (zone : Zone) (flags : ℕ)
    (at_i : get_elem? g.pages i ≡ some p) (belongs : p.zone ≡ some z) where
  -- A frame that is not in use is taken.
  pub page_init-Unused :
      get_elem? g.zones z ≡ some zone
      → Unused p
      → page_init g (some i) flags
        ≡ ok (record g {
          pages = set g.pages i (taken p flags);
          zones = set g.zones z (minus_one zone);
          free_2m_pages = sub64 g.free_2m_pages 1;
        })
  unfolding page_init
  page_init-Unused at_z unused = rw (at_i, belongs, unused, at_z) refl

-- The definitions, where only they are needed.
init_frame-if :
    (g : Manager) (i : ℕ) (p : Page) (z flags : ℕ) (b : Bool)
    → (bit_and p.flags page_used == 0) ≡ b
    → (if b
        then take_frame g i p z flags
        else ok (record g { pages = set g.pages i (update_frame p flags) }))
      ≡ init_frame g i p (some z) flags
unfolding init_frame
init_frame-if g i p z flags b e = rw e refl

page_init-bind :
    (g : Manager) (i flags : ℕ) {h : Manager}
    → page_init g (some i) flags ≡ ok h
    → (in_range (get_elem? g.pages i) >>= λ p. init_frame g i p p.zone flags) ≡ ok h
unfolding page_init
page_init-bind g i flags e = e

init_frame-none :
    (g : Manager) (i : ℕ) (p : Page) (flags : ℕ) {h : Manager}
    → ¬ (init_frame g i p none flags ≡ ok h)
unfolding init_frame
init_frame-none g i p flags e = cc

-- `h` is `g` but for the attributes and the count of frame `i`, and for counts of free pages.
pub record IsUpdated (g : Manager) (i : ℕ) (h : Manager) : Type 0 where
  pub shape : SameShape g h
  pub bitmap_kept : h.bitmap ≡ g.bitmap
  pub others : (q : ℕ) → i ≢ q → get_elem? h.pages q ≡ get_elem? g.pages q
  pub trace_kept : h.trace ≡ g.trace

module _ (g : Manager) (i : ℕ) (p : Page) (flags : ℕ) (at_i : get_elem? g.pages i ≡ some p) where
  take_frame-IsUpdated : (z : ℕ) {h : Manager} → take_frame g i p z flags ≡ ok h → IsUpdated g i h
  unfolding take_frame
  take_frame-IsUpdated z e =
      let (zone, at_z, e') = >>=-ok (in_range (get_elem? g.zones z)) _ e in
      let found = in_range-ok (get_elem? g.zones z) at_z in
      subst (IsUpdated g i) (ok-injective e') (record {
        shape = record {
          bitmap_same = refl;
          pages_same = map-set_same page_shape g.pages i p _ at_i refl;
          zones_same = map-set_same zone_shape g.zones z zone _ found refl;
        };
        bitmap_kept = refl;
        others = λ q ne. get_elem?-set_ne g.pages i q _ ne;
        trace_kept = refl;
      })

  update_frame-shape : page_shape (update_frame p flags) ≡ page_shape p
  unfolding update_frame
  update_frame-shape = ground arith

  update_frame-IsUpdated :
      {h : Manager}
      → ok (record g { pages = set g.pages i (update_frame p flags) }) ≡ ok h
      → IsUpdated g i h
  update_frame-IsUpdated e = subst (IsUpdated g i) (ok-injective e) (record {
    shape = record {
      bitmap_same = refl;
      pages_same = map-set_same page_shape g.pages i p _ at_i update_frame-shape;
      zones_same = refl;
    };
    bitmap_kept = refl;
    others = λ q ne. get_elem?-set_ne g.pages i q _ ne;
    trace_kept = refl;
  })

  init_frame-IsUpdated :
      (o : Option ℕ) {h : Manager} → init_frame g i p o flags ≡ ok h → IsUpdated g i h
  init_frame-IsUpdated none e = absurd (init_frame-none g i p flags e)
  init_frame-IsUpdated (some z) {h} e = elim (Bool-cases (bit_and p.flags page_used == 0)) [
    | inl free ↦ take_frame-IsUpdated z (branch true free)
    | inr used ↦ update_frame-IsUpdated (branch false used)
  ]
    where
      branch :
          (b : Bool)
          → (bit_and p.flags page_used == 0) ≡ b
          → (if b
              then take_frame g i p z flags
              else ok (record g { pages = set g.pages i (update_frame p flags) }))
            ≡ ok h
      branch b c = init_frame-if g i p z flags b c ∙ e

-- Whatever `page_init` does, if it returns it changes one frame, and only what may change in it.
pub page_init-IsUpdated :
    (g : Manager) (i flags : ℕ) {h : Manager} → page_init g (some i) flags ≡ ok h → IsUpdated g i h
page_init-IsUpdated g i flags e =
    let (p, at_i, e') = >>=-ok (in_range (get_elem? g.pages i)) _ (page_init-bind g i flags e) in
    init_frame-IsUpdated g i p flags (in_range-ok (get_elem? g.pages i) at_i) p.zone e'
