-- ===== src/Memory/Init/Kernel.antt =====
-- The pages of the kernel's own arrays, which `init_memory` of kernel/memory.c takes out of the zones.
use native.Mathlib.Decide.{ℕ_discrete}
use knos.Base.{
  ℕ, zero, suc, ◌+◌, ◌*◌, ◌^◌, ◌≤◌, ◌<◌, ◌≡◌, refl, ap, sym, ◌∙◌, ◌⊎◌, inl, inr, ◌&&◌, Bool-cases,
  max, Option, none, some, List, [], ◌∷◌, ok, arith, length, get_elem?, set, map, map-set_same,
  get_elem?_of_lt, get_elem?-set_ne, some-injective, leb,
}
use knos.Base.Word.{sub64}
use knos.Memory.{Page, Zone, Manager}
use knos.Memory.Bitmap.Laws.{marked, set_bit_lem, IsWritten}
use mathlib.Core.Path.{subst}
use knos.Memory.Bitmap.Run.{IsMarkedRun, IsMarkedRun-nil, IsMarkedRun-cons}
use knos.Memory.WellFormed.{
  SameShape-refl, page_shape, zone_shape, Keeps, Keeps-trans, length-pages_same,
}
use knos.Memory.Init.{charge_zone, charged, kernel_flags, take_kernel_page, take_kernel_pages}

-- The zone's count of free pages is believable, and covers what the kernel still takes: the pages from
-- `pfn` to `last`.
pub record HasRoom (last pfn : ℕ) (zone : Zone) : Type 0 where
  pub fair : zone.start_pfn + zone.nr_free ≤ zone.end_pfn
  pub small : zone.end_pfn < 2 ^ 64
  pub left : last ≤ max pfn zone.start_pfn + zone.nr_free

unfoldable pub HaveRoom : ℕ → ℕ → List Zone → Type 0
HaveRoom last pfn [] = 0 ≤ 0
HaveRoom last pfn (zone ∷ zones) = HasRoom last pfn zone × HaveRoom last pfn zones

HasRoom-next : (last pfn : ℕ) (zone : Zone) → HasRoom last pfn zone → HasRoom last (pfn + 1) zone
HasRoom-next last pfn zone r = record {
  fair = r.fair;
  small = r.small;
  left = omega (arith, r.left);
}

HaveRoom-next :
    (last pfn : ℕ) (zones : List Zone) → HaveRoom last pfn zones → HaveRoom last (pfn + 1) zones
unfolding HaveRoom
HaveRoom-next last pfn [] h = h
HaveRoom-next last pfn (zone ∷ zones) (h, hs) =
    (HasRoom-next last pfn zone h, HaveRoom-next last pfn zones hs)

HasRoom-charged :
    (last pfn : ℕ) (zone : Zone)
    → pfn < last
    → zone.start_pfn ≤ pfn
    → HasRoom last pfn zone
    → HasRoom last (pfn + 1) (record zone { nr_free = sub64 zone.nr_free 1 })
HasRoom-charged last pfn zone before started r = record {
  fair = omega (arith, r.fair, r.small, r.left);
  small = r.small;
  left = omega (arith, r.fair, r.small, r.left);
}

-- The outcome of a charge.
abbrev IsCharged : ℕ → ℕ → List Zone → Option (List Zone) → Type 0
IsCharged last pfn zones o =
    (o ≡ none)
    ⊎ ((zones' : List Zone) × (o ≡ some zones')
        × HaveRoom last (pfn + 1) zones'
        × (map zone_shape zones' ≡ map zone_shape zones))

charge_zone_lem :
    (last pfn : ℕ) (zones : List Zone)
    → pfn < last
    → HaveRoom last pfn zones
    → IsCharged last pfn zones (charge_zone pfn zones)
unfolding charge_zone HaveRoom
charge_zone_lem last pfn [] before h = inl refl
charge_zone_lem last pfn (zone ∷ zones) before (h, hs) =
    elim (Bool-cases (leb zone.start_pfn pfn && leb pfn zone.end_pfn)) [
      | inl hit ↦
          rw (hit, charge_zone)
            (inr (
              _,
              refl,
              (
                HasRoom-charged last pfn zone before (ground arith) h,
                HaveRoom-next last pfn zones hs,
              ),
              refl,
            ))
      | inr miss ↦ elim (charge_zone_lem last pfn zones before hs) [
        | inl e ↦ rw (miss, charge_zone) (rw e (inl refl))
        | inr (rest, e, room, shape) ↦
            rw (miss, charge_zone)
              (rw e (
                inr (
                  zone ∷ rest,
                  refl,
                  (HasRoom-next last pfn zone h, room),
                  ap (λ s. zone_shape zone ∷ s) shape,
                )))
      ]
    ]

-- What the kernel's pages from `lo` on, `n` of them, do to the manager.
pub record IsTaken (last lo n : ℕ) (g h : Manager) : Type 0 where
  pub keeps : Keeps g h
  pub room : HaveRoom last (lo + n) h.zones
  pub free : h.free_2m_pages < 2 ^ 64
  pub marks : IsMarkedRun g.bitmap n lo h.bitmap

-- The page as the kernel leaves it.
abbrev kernel_page : Page → Page
kernel_page p = record p { flags = kernel_flags; ref_count = 1 }

module _ (g : Manager) (pfn : ℕ) (p : Page) (words : List ℕ)
    (at_pfn : get_elem? g.pages pfn ≡ some p) (one : IsWritten g.bitmap pfn 1 words) where
  abbrev marked_page : Manager
  marked_page = record g { bitmap = words; pages = set g.pages pfn (kernel_page p) }

  marked_page-Keeps :
      (zones : List Zone) (free : ℕ)
      → map zone_shape zones ≡ map zone_shape g.zones
      → Keeps g (record marked_page { zones = zones; free_2m_pages = free })
  marked_page-Keeps zones free shape = record {
    shape = record {
      bitmap_same = one.same_length;
      pages_same = map-set_same page_shape g.pages pfn p (kernel_page p) at_pfn refl;
      zones_same = shape;
    };
    tracks = λ t i q at_i free_bit. elim (ℕ_discrete pfn i) [
      | yes same ↦
          let taken : marked words i ≡ 1 = ap (marked words) (sym same) ∙ one.here in
          absurd (omega arith)
      | no differ ↦
          t i q (sym (get_elem?-set_ne g.pages pfn i (kernel_page p) differ) ∙ at_i)
            (sym (one.elsewhere i differ) ∙ free_bit)
    ];
  }

-- The same behind the charge of a zone, if there is one for the page.
charged-IsTaken :
    (last pfn : ℕ) (g : Manager) (p : Page) (words : List ℕ) (o : Option (List Zone))
    → (at_pfn : get_elem? g.pages pfn ≡ some p) → (one : IsWritten g.bitmap pfn 1 words)
    → HaveRoom last pfn g.zones
    → g.free_2m_pages < 2 ^ 64
    → IsCharged last pfn g.zones o
    → Keeps g (charged (marked_page g pfn p words at_pfn one) o)
      × HaveRoom last (pfn + 1) (charged (marked_page g pfn p words at_pfn one) o).zones
      × ((charged (marked_page g pfn p words at_pfn one) o).free_2m_pages < 2 ^ 64)
      × ((charged (marked_page g pfn p words at_pfn one) o).bitmap ≡ words)
charged-IsTaken last pfn g p words none at_pfn one room small c = (
  marked_page-Keeps g pfn p words at_pfn one g.zones g.free_2m_pages refl,
  HaveRoom-next last pfn g.zones room,
  small,
  refl,
)
charged-IsTaken last pfn g p words (some zones) at_pfn one room small (inl e) = absurd (cc e)
charged-IsTaken last pfn g p words (some zones) at_pfn one room small
      (inr (zones', e, room', shape)) =
    let same : zones' ≡ zones = some-injective (sym e) in
    (
      marked_page-Keeps g pfn p words at_pfn one zones (sub64 g.free_2m_pages 1)
          (ap (map zone_shape) (sym same) ∙ shape),
      subst (HaveRoom last (pfn + 1)) same room',
      omega arith,
      refl,
    )

-- Where the pages are in the arrays, the zones have room for them, and `last` is behind the last of
-- them, the loop ends without a fault.
pub take_kernel_pages_lem :
    (last n lo : ℕ) (g : Manager)
    → (1 ≤ n → lo + n ≤ length g.pages)
    → lo + n ≡ max last lo
    → length g.pages ≤ 64 * length g.bitmap
    → HaveRoom last lo g.zones
    → g.free_2m_pages < 2 ^ 64
    → (h : Manager) × (take_kernel_pages n lo g ≡ ok h) × IsTaken last lo n g h
unfolding take_kernel_pages take_kernel_page
take_kernel_pages_lem last zero lo g fits ends covers room small = (
  g,
  refl,
  record {
    keeps = record { shape = SameShape-refl g; tracks = λ t. t };
    room = subst (λ k. HaveRoom last k g.zones) (omega arith) room;
    free = small;
    marks = IsMarkedRun-nil lo g.bitmap;
  },
)
take_kernel_pages_lem last (suc n) lo g fits ends covers room small =
    let inside : lo + suc n ≤ length g.pages = fits (omega arith) in
    let (p, at_lo) = get_elem?_of_lt g.pages lo (omega arith) in
    let (words, set_it, one) = set_bit_lem g.bitmap lo (omega arith) in
    let o = charge_zone lo g.zones in
    let charge = charge_zone_lem last lo g.zones (omega arith) room in
    let (keeps, room', small', same) =
      charged-IsTaken last lo g p words o at_lo one room small charge in
    let g1 = charged (marked_page g lo p words at_lo one) o in
    let (h, e, t) =
      take_kernel_pages_lem last n (lo + 1) g1
        (λ some_left. omega (arith, length-pages_same keeps.shape)) (omega arith)
        (omega (arith, length-pages_same keeps.shape, keeps.shape.bitmap_same)) room' small' in
    (
      h,
      rw (set_it, at_lo) e,
      record {
        keeps = Keeps-trans keeps t.keeps;
        room = subst (λ k. HaveRoom last k h.zones) (omega arith) t.room;
        free = t.free;
        marks =
            IsMarkedRun-cons n lo one (subst (λ w. IsMarkedRun w n (lo + 1) h.bitmap) same t.marks);
      },
    )
