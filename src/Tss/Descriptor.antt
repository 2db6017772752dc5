-- ===== src/Tss/Descriptor.antt =====
-- What the processor reads from the descriptor that `setup_tss64` of kernel/gdt.c stores.
use native.Mathlib.Nat.{mod-eq_of_lt}
use knos.Base.{
  ℕ, ◌+◌, ◌*◌, ◌%◌, ◌/◌, ◌^◌, ◌≤◌, ◌<◌, ◌≡◌, ◌≢◌, true, refl, ap, ◌∙◌, some, ok, arith, bit_or,
  length, get_elem?, set, get_elem?-set_self, get_elem?-set_ne, length-set, ltb,
}
use knos.Base.Word.{u32, shl64}
use knos.Base.Bits.{bit_and-ones, bit_or-add}
use knos.Tss.{descriptor_low, descriptor_high, GdtState, with_tss, setup_tss64, tss_limit}

-- The base that the processor puts together.
abbrev pub base_read : ℕ → ℕ → ℕ
base_read low high = low / 2 ^ 16 % 2 ^ 24 + low / 2 ^ 56 * 2 ^ 24 + high * 2 ^ 32

-- One more field above `o` bits.
or-field :
    (o w a f : ℕ) → a < 2 ^ o → f * 2 ^ o < 2 ^ w → bit_or a (f * 2 ^ o % 2 ^ w) ≡ a + f * 2 ^ o
or-field o w a f small fits = ap (bit_or a) (mod-eq_of_lt fits) ∙ bit_or-add o a f small

-- The chain of fields above a number, over any low, middle and high part of the base.
fields_sum :
    (l m h : ℕ)
    → l < 2 ^ 16
    → m < 2 ^ 8
    → h < 2 ^ 8
    → bit_or
        (bit_or
          (bit_or
            (bit_or
              (bit_or (bit_or (bit_or 103 (u32 (l * 2 ^ 16))) (shl64 m 32)) (shl64 9 40))
              (shl64 0 44))
            (shl64 1 47))
          (shl64 1 55))
        (shl64 h 56)
      ≡ 103
        + l * 2 ^ 16
        + m * 2 ^ 32
        + 9 * 2 ^ 40
        + 0 * 2 ^ 44
        + 1 * 2 ^ 47
        + 1 * 2 ^ 55
        + h * 2 ^ 56
fields_sum l m h hl hm hh =
    let a1 = 103 + l * 2 ^ 16 in
    let a2 = a1 + m * 2 ^ 32 in
    let a3 = a2 + 9 * 2 ^ 40 in
    let a4 = a3 + 0 * 2 ^ 44 in
    let a5 = a4 + 1 * 2 ^ 47 in
    let a6 = a5 + 1 * 2 ^ 55 in
    let s1 = or-field 16 32 103 l (omega arith) (omega arith) in
    let s2 = ap (λ a. bit_or a (shl64 m 32)) s1 ∙ or-field 32 64 a1 m (omega arith) (omega arith) in
    let s3 = ap (λ a. bit_or a (shl64 9 40)) s2 ∙ or-field 40 64 a2 9 (omega arith) (omega arith) in
    let s4 = ap (λ a. bit_or a (shl64 0 44)) s3 ∙ or-field 44 64 a3 0 (omega arith) (omega arith) in
    let s5 = ap (λ a. bit_or a (shl64 1 47)) s4 ∙ or-field 47 64 a4 1 (omega arith) (omega arith) in
    let s6 = ap (λ a. bit_or a (shl64 1 55)) s5 ∙ or-field 55 64 a5 1 (omega arith) (omega arith) in
    ap (λ a. bit_or a (shl64 h 56)) s6 ∙ or-field 56 64 a6 h (omega arith) (omega arith)

descriptor_low_sum :
    (base : ℕ)
    → descriptor_low base
      ≡ 103
        + base % 2 ^ 16 * 2 ^ 16
        + base / 2 ^ 16 % 2 ^ 8 * 2 ^ 32
        + 9 * 2 ^ 40
        + 0 * 2 ^ 44
        + 1 * 2 ^ 47
        + 1 * 2 ^ 55
        + base / 2 ^ 24 % 2 ^ 8 * 2 ^ 56
unfolding descriptor_low
descriptor_low_sum base =
    rw (bit_and-ones 16 base, bit_and-ones 8 (base / 2 ^ 16), bit_and-ones 8 (base / 2 ^ 24))
      (fields_sum (base % 2 ^ 16) (base / 2 ^ 16 % 2 ^ 8) (base / 2 ^ 24 % 2 ^ 8) (omega arith)
        (omega arith) (omega arith))

-- What `setup_tss64` leaves in a table of at least ten words: the processor reads from the words 8 and
-- 9 the given base, the limit 103 in units of 4 KB (bit 55), the type 9 and the present bit, the task
-- register selects word 8, and no other word has changed.
pub record IsTss (base : ℕ) (old new : GdtState) : Type 0 where
  pub low : ℕ
  pub high : ℕ
  pub at_8 : get_elem? new.gdt 8 ≡ some low
  pub at_9 : get_elem? new.gdt 9 ≡ some high
  pub reads_base : base_read low high ≡ base
  pub limit : low % 2 ^ 16 ≡ tss_limit
  pub type_bits : low / 2 ^ 40 % 2 ^ 4 ≡ 9
  pub present : low / 2 ^ 47 % 2 ≡ 1
  pub in_pages : low / 2 ^ 55 % 2 ≡ 1
  pub selected : new.task_register / 2 ^ 3 ≡ 8
  pub others : (i : ℕ) → 8 ≢ i → 9 ≢ i → get_elem? new.gdt i ≡ get_elem? old.gdt i

-- For a 64-bit address of the TSS and a table of at least ten words, `setup_tss64` does not fault, and
-- stores a descriptor from which the processor reads that address, the limit 103 with bit 55 for units
-- of 4 KB, the type 9 and the present bit; it selects that descriptor and changes no other word.
pub setup_tss64_lem :
    (base : ℕ) (s : GdtState)
    → base < 2 ^ 64
    → 10 ≤ length s.gdt
    → (s' : GdtState) × (setup_tss64 base s ≡ ok s') × IsTss base s s'
unfolding setup_tss64 descriptor_high
setup_tss64_lem base s small size =
    let room : ltb 9 (length s.gdt) ≡ true = ground arith in
    let low = descriptor_low base in
    let high = descriptor_high base in
    let sum = descriptor_low_sum base in
    let first = set s.gdt 8 low in
    (
      with_tss base s,
      rw room refl,
      record {
        low = low;
        high = high;
        at_8 =
            get_elem?-set_ne first 9 8 high (λ e. omega arith)
            ∙ get_elem?-set_self s.gdt 8 low (omega arith);
        at_9 = get_elem?-set_self first 9 high (omega (arith, length-set s.gdt 8 low));
        reads_base = omega (arith, sum);
        limit = omega (arith, sum);
        type_bits = omega (arith, sum);
        present = omega (arith, sum);
        in_pages = omega (arith, sum);
        selected = omega arith;
        others = λ i no_8 no_9.
            get_elem?-set_ne first 9 i high no_9 ∙ get_elem?-set_ne s.gdt 8 i low no_8;
      },
    )
