-- ===== src/Tss.antt =====
-- `setup_tss64` of kernel/gdt.c: the descriptor of the task state segment.
pub mod Descriptor
mod Tests
use knos.Base.{
  ℕ, ◌+◌, ◌-◌, ◌*◌, ◌%◌, ◌/◌, ◌^◌, Bool, true, List, bit_and, bit_or, set, length, ltb, Result, ok,
  fault, ◌>>=◌, if◌then◌else◌,
}
use knos.Base.Word.{u32, shl64, shr}

abbrev pub tss_limit : ℕ
tss_limit = 103

abbrev pub base_low : ℕ → ℕ
base_low base = bit_and base 0xFFFF

abbrev pub base_mid : ℕ → ℕ
base_mid base = bit_and (shr base 16) 0xFF

abbrev pub base_high : ℕ → ℕ
base_high base = bit_and (shr base 24) 0xFF

-- The two words of the descriptor. `base_low << 16` is computed in 32 bits.
unfoldable pub descriptor_low : ℕ → ℕ
descriptor_low base =
    bit_or
      (bit_or
        (bit_or
          (bit_or
            (bit_or
              (bit_or (bit_or (bit_and tss_limit 0xFFFF) (u32 (base_low base * 2 ^ 16)))
                (shl64 (base_mid base) 32))
              (shl64 9 40))
            (shl64 0 44))
          (shl64 1 47))
        (shl64 1 55))
      (shl64 (base_high base) 56)

unfoldable pub descriptor_high : ℕ → ℕ
descriptor_high base = shr base 32

-- The table of descriptors, the selector in the task register, and whether interrupts are on.
pub record GdtState : Type 0 where
  pub gdt : List ℕ
  pub task_register : ℕ
  pub interrupts_on : Bool

-- `base` is the address of `TSS64_Table`. Interrupts are off during the two writes, and on behind them,
-- whatever they were before.
abbrev pub with_tss : ℕ → GdtState → GdtState
with_tss base s = record {
  gdt = set (set s.gdt 8 (descriptor_low base)) 9 (descriptor_high base);
  task_register = 0x40;
  interrupts_on = true;
}

unfoldable pub setup_tss64 : ℕ → GdtState → Result GdtState
setup_tss64 base s = if ltb 9 (length s.gdt) then ok (with_tss base s) else fault
