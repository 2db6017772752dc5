-- ===== src/Printk/Font/Glyphs.antt =====
-- Each character of kernel/font.h is known by its glyph.
use knos.Base.{
  ℕ, zero, suc, ◌+◌, ◌-◌, ◌*◌, none, some, get_elem?, ◌≤◌, ◌<◌, ◌≡◌, refl, ap, ◌∙◌, Bool, true, not,
  List, [], ◌∷◌, bit_and, arith, all_below, all_below_sound, ◌==◌, ==→eq, if◌then◌else◌,
}
use knos.Base.Word.{shr}
use knos.Printk.Font.{font_ascii, font_row, row_of}
use mathlib.Core.Path.{subst}

-- The number of the bits `j`, `j + 1`, … of a row, the first one the highest.
unfoldable pub row_from : ℕ → ℕ → (ℕ → Bool) → ℕ → ℕ
row_from zero j bit_at row = row
row_from (suc left) j bit_at row =
    row_from left (j + 1) bit_at (row * 2 + (if bit_at j then 1 else 0))

-- The number of the rows `i`, `i + 1`, … of a glyph.
unfoldable pub glyph_from : ℕ → ℕ → (ℕ → ℕ) → ℕ → ℕ
glyph_from zero i row_at glyph = glyph
glyph_from (suc left) i row_at glyph = glyph_from left (i + 1) row_at (glyph * 256 + row_at i)

-- The first character from `c` on with a glyph, or 0.
unfoldable pub find_glyph : ℕ → ℕ → List ℕ → ℕ
find_glyph glyph c [] = 0
find_glyph glyph c (g ∷ glyphs) = if g == glyph then c else find_glyph glyph (c + 1) glyphs

-- A blank glyph is read as a space.
unfoldable pub character_of : ℕ → ℕ
character_of glyph = if glyph == 0 then b' ' else find_glyph glyph 0 font_ascii

-- The rows are bytes, and `put_color_char` reads all their bits.
abbrev pub row_bit : ℕ → ℕ → Bool
row_bit row j = not (bit_and row (shr 0x80 j) == 0)

rows_read : all_below 256 (λ row. row_from 8 0 (row_bit row) 0 == row) ≡ true
unfolding all_below row_from
rows_read = refl

pub row_from-row_bit : (row : ℕ) → row < 256 → row_from 8 0 (row_bit row) 0 ≡ row
row_from-row_bit row small =
    ==→eq _ row
      (all_below_sound 256 (λ row. row_from 8 0 (row_bit row) 0 == row) row rows_read small)

-- The characters of ASCII that are printed.
abbrev pub IsPrintable : ℕ → Type 0
IsPrintable c = (32 ≤ c) × (c < 127)

abbrev is_read : ℕ → Bool
is_read i = character_of (glyph_from 16 0 (font_row (32 + i)) 0) == 32 + i

characters_read : all_below 95 is_read ≡ true
unfolding all_below character_of find_glyph glyph_from font_row font_ascii
characters_read = refl

pub character_of-font_row :
    (c : ℕ) → IsPrintable c → character_of (glyph_from 16 0 (font_row c) 0) ≡ c
character_of-font_row c printable =
    let i = c - 32 in
    let e : 32 + i ≡ c = omega arith in
    ==→eq _ c (
      subst (λ c. (character_of (glyph_from 16 0 (font_row c) 0) == c) ≡ true) e
        (all_below_sound 95 is_read i characters_read (omega arith)))

pub row_from_cong :
    (left j : ℕ) (f h : ℕ → Bool) (row : ℕ)
    → ((k : ℕ) → j ≤ k → k < j + left → f k ≡ h k)
    → row_from left j f row ≡ row_from left j h row
unfolding row_from
row_from_cong zero j f h row same = refl
row_from_cong (suc left) j f h row same =
    ap (λ b. row_from left (j + 1) f (row * 2 + (if b then 1 else 0)))
      (same j (omega arith) (omega arith))
    ∙ row_from_cong left (j + 1) f h _ (λ k from below. same k (omega arith) (omega arith))

pub glyph_from_cong :
    (left i : ℕ) (f h : ℕ → ℕ) (glyph : ℕ)
    → ((k : ℕ) → i ≤ k → k < i + left → f k ≡ h k)
    → glyph_from left i f glyph ≡ glyph_from left i h glyph
unfolding glyph_from
glyph_from_cong zero i f h glyph same = refl
glyph_from_cong (suc left) i f h glyph same =
    ap (λ r. glyph_from left (i + 1) f (glyph * 256 + r)) (same i (omega arith) (omega arith))
    ∙ glyph_from_cong left (i + 1) f h _ (λ k from below. same k (omega arith) (omega arith))

-- Rows are bytes.
pub font_row_bound : (c i : ℕ) → font_row c i < 256
unfolding font_row
font_row_bound c i = elim (get_elem? font_ascii c) as (λ o. row_of i o < 256) [
  | none ↦ omega arith
  | some g ↦ omega arith
]
