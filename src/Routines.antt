-- ===== src/Routines.antt =====
-- The memory routines of kernel/lib.h, instruction by instruction.
pub mod Copy
pub mod Fill
pub mod Scan
mod Tests
use knos.Base.{
  ℕ, zero, suc, ◌+◌, ◌-◌, ◌*◌, ◌/◌, ◌%◌, ◌^◌, Bool, true, false, ◌&&◌, ltb, leb, ◌==◌,
  if◌then◌else◌,
}
use knos.Base.Word.{add64}
use knos.Base.Int.{ℤ, pos, negsuc}

-- The byte at each address.
abbrev pub Bytes : Type 0
Bytes = ℕ → ℕ

-- Is `x` one of the `n` addresses from `a` on?
abbrev pub in_run : ℕ → ℕ → ℕ → Bool
in_run a n x = leb a x && ltb x (a + n)

-- The registers and the memory of a copy.
pub record Copying : Type 0 where
  pub rdi : ℕ
  pub rsi : ℕ
  pub memory : Bytes

-- `movsq`, `movsl`, `movsw` and `movsb` for 8, 4, 2 and 1 bytes: all are read before one is written.
unfoldable pub movs : ℕ → Copying → Copying
movs bytes s = record {
  rdi = add64 s.rdi bytes;
  rsi = add64 s.rsi bytes;
  memory = λ x. if in_run s.rdi bytes x then s.memory (s.rsi + (x - s.rdi)) else s.memory x;
}

-- `rep movsq`, with the count in rcx.
unfoldable pub rep_movsq : ℕ → Copying → Copying
rep_movsq zero s = s
rep_movsq (suc rcx) s = rep_movsq rcx (movs 8 s)

-- `testb $bytes` on the length, and the copy of these bytes if the bit is set.
unfoldable pub movs_if : ℕ → ℕ → Copying → Copying
movs_if bytes n s = if n / bytes % 2 == 0 then s else movs bytes s

unfoldable pub memcpy : ℕ → ℕ → ℕ → Bytes → Bytes
memcpy dest src n memory =
    let s = rep_movsq (n / 8) (record { rdi = dest; rsi = src; memory = memory }) in
    (movs_if 1 n (movs_if 2 n (movs_if 4 n s))).memory

-- The registers and the memory of a fill.
pub record Filling : Type 0 where
  pub rdi : ℕ
  pub memory : Bytes

-- `stosq` and `stosb`: the low bytes of rax, the lowest first.
unfoldable pub stos : ℕ → ℕ → Filling → Filling
stos bytes rax s = record {
  rdi = add64 s.rdi bytes;
  memory = λ x. if in_run s.rdi bytes x then rax / 256 ^ (x - s.rdi) % 256 else s.memory x;
}

unfoldable pub rep_stos : ℕ → ℕ → ℕ → Filling → Filling
rep_stos bytes rax zero s = s
rep_stos bytes rax (suc rcx) s = rep_stos bytes rax rcx (stos bytes rax s)

-- `c64`
abbrev pub repeated_byte : ℕ → ℕ
repeated_byte c = c % 2 ^ 8 * 0x0101010101010101

unfoldable pub memset : ℕ → ℕ → ℕ → Bytes → Bytes
memset dest c n memory =
    let s = rep_stos 8 (repeated_byte c) (n / 8) (record { rdi = dest; memory = memory }) in
    (rep_stos 1 (repeated_byte c) (n % 8) s).memory

-- `repne scasb` for a 0, from the address in rdi: what is left in rcx.
unfoldable pub repne_scasb : ℕ → ℕ → Bytes → ℕ
repne_scasb zero rdi memory = 0
repne_scasb (suc rcx) rdi memory =
    let rest = repne_scasb rcx (add64 rdi 1) memory in if memory rdi == 0 then rcx else rest

-- `notl` and `decl`, and the result as an int32_t.
unfoldable pub strlen : ℕ → Bytes → ℤ
strlen str memory =
    let ecx = repne_scasb 0xFFFFFFFF str memory in
    let res = (2 ^ 32 - 1 - ecx + 2 ^ 32 - 1) % 2 ^ 32 in
    if ltb res (2 ^ 31) then pos res else negsuc (2 ^ 32 - 1 - res)
