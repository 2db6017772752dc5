-- ===== src/Cpu.antt =====
-- What kernel/cpu.h reads about the processor.
pub mod Cores
mod Tests
use knos.Base.{
  ℕ, zero, suc, ◌+◌, ◌-◌, ◌*◌, ◌/◌, ◌%◌, ◌^◌, Bool, true, false, ◌||◌, List, [], ◌∷◌, ◌++◌, Result,
  ok, no_fuel, ◌>>=◌, ltb, leb, ◌==◌, if◌then◌else◌,
}
use knos.Base.Word.{u32}

-- What the instruction `cpuid` leaves in the registers.
pub record Answer : Type 0 where
  pub eax : ℕ
  pub ebx : ℕ
  pub ecx : ℕ
  pub edx : ℕ

-- `cpuid` and `cpuid_count`: the answer to a leaf, and to a leaf and a subleaf.
module _ (cpuid : ℕ → Answer) (cpuid_count : ℕ → ℕ → Answer) where
  -- The bytes of a register in memory, and of an `int32_t cpu_info[4]`.
  abbrev register_bytes : ℕ → List ℕ
  register_bytes r = r % 256 ∷ r / 2 ^ 8 % 256 ∷ r / 2 ^ 16 % 256 ∷ r / 2 ^ 24 % 256 ∷ []

  abbrev pub info_bytes : Answer → List ℕ
  info_bytes a =
      register_bytes a.eax
      ++ (register_bytes a.ebx ++ (register_bytes a.ecx ++ register_bytes a.edx))

  -- The 49 bytes that are written.
  unfoldable pub cpu_name : List ℕ
  cpu_name =
      info_bytes (cpuid 0x80000002)
      ++ (info_bytes (cpuid 0x80000003) ++ (info_bytes (cpuid 0x80000004) ++ (0 ∷ [])))

  -- `(ecx >> 8) & 0xFF`
  abbrev pub level_type : ℕ → ℕ
  level_type subleaf = (cpuid_count 0x0B subleaf).ecx / 2 ^ 8 % 2 ^ 8

  -- The loop over the subleaves: the threads of a core and of the package.
  unfoldable pub count_levels : ℕ → ℕ → ℕ → ℕ → Result (ℕ × ℕ)
  count_levels zero subleaf smt_threads package_logical = no_fuel
  count_levels (suc fuel) subleaf smt_threads package_logical = elim (level_type subleaf == 0) [
    | true ↦ ok (smt_threads, package_logical)
    | false ↦
        count_levels fuel (u32 (subleaf + 1))
          (if level_type subleaf == 1 then (cpuid_count 0x0B subleaf).ebx else smt_threads)
          (if level_type subleaf == 2 then (cpuid_count 0x0B subleaf).ebx else package_logical)
  ]

  -- The division at the end, with what stands in for a level that is missing.
  abbrev pub cores_of : ℕ → ℕ → ℕ
  cores_of smt_threads package_logical =
      (if package_logical == 0 then (cpuid 1).ebx / 2 ^ 16 % 2 ^ 8 else package_logical)
      / (if smt_threads == 0 then 1 else smt_threads)

  -- `eax` is an int32_t, so it is negative from 2 ^ 31 on. -1 as a uint32_t: the leaf is missing.
  unfoldable pub cpu_physical_cores : ℕ → Result ℕ
  cpu_physical_cores fuel =
      if ltb (cpuid 0).eax 0x0B || leb (2 ^ 31) (cpuid 0).eax
      then ok (2 ^ 32 - 1)
      else count_levels fuel 0 0 0 >>= λ l. ok (cores_of l.0 l.1)
