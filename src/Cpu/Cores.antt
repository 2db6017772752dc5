-- ===== src/Cpu/Cores.antt =====
-- `cpu_physical_cores` of kernel/cpu.h counts the cores.
use native.Mathlib.Nat.{div-mul-le_self, lt-div-mul-add}
use knos.Base.{
  ℕ, zero, suc, ◌+◌, ◌*◌, ◌/◌, ◌%◌, ◌^◌, ◌⊎◌, inl, inr, refl, ◌≤◌, ◌<◌, ◌≡◌, ◌≢◌, ap, ◌∙◌, true,
  false, ◌||◌, ok, ◌>>=◌, arith, ltb, leb, ◌==◌, if◌then◌else◌,
}
use knos.Base.Word.{u32}
use knos.Cpu.{Answer, count_levels, cores_of, cpu_physical_cores}

-- A count, or what stands in for it if it is 0.
abbrev pub IsGivenOr : ℕ → ℕ → ℕ → Type 0
IsGivenOr count other n = ((count ≡ 0) × (n ≡ other)) ⊎ ((0 < count) × (n ≡ count))

given_or : (count other : ℕ) → IsGivenOr count other (if count == 0 then other else count)
given_or zero other = inl (refl, refl)
given_or (suc k) other = inr (omega arith, ground arith)

module _ (cpuid : ℕ → Answer) (cpuid_count : ℕ → ℕ → Answer) where
  -- Bits 8 to 15 of ecx.
  abbrev pub type_of : ℕ → ℕ
  type_of i = (cpuid_count 0x0B i).ecx / 2 ^ 8 % 2 ^ 8

  -- The count of the last of the first `n` subleaves that has the type, and 0 if there is none.
  unfoldable pub last_level : ℕ → ℕ → ℕ
  last_level t zero = 0
  last_level t (suc n) =
      let rest = last_level t n in if type_of n == t then (cpuid_count 0x0B n).ebx else rest

  -- The levels of the processor are the subleaves before `n`.
  pub record HasLevels (n : ℕ) : Type 0 where
    pub ends : type_of n ≡ 0
    pub before : (i : ℕ) → i < n → type_of i ≢ 0

  count_levels_from :
      (left fuel i n : ℕ)
      → HasLevels n
      → n < 2 ^ 32
      → i + left ≡ n
      → left < fuel
      → count_levels cpuid cpuid_count fuel i (last_level 1 i) (last_level 2 i)
        ≡ ok (last_level 1 n, last_level 2 n)
  unfolding count_levels last_level
  count_levels_from left zero i n h few here enough = absurd (omega arith)
  count_levels_from zero (suc fuel) i n h few here enough =
      let same : i ≡ n = omega arith in
      let last : (type_of i == 0) ≡ true = ground (arith, ap type_of same ∙ h.ends) in
      rw (last, count_levels) (ap (λ k. ok (last_level 1 k, last_level 2 k)) same)
  count_levels_from (suc left) (suc fuel) i n h few here enough =
      let valid : type_of i ≢ 0 = h.before i (omega arith) in
      let goes_on : (type_of i == 0) ≡ false = ground arith in
      let next : u32 (i + 1) ≡ suc i = omega arith in
      rw (goes_on, count_levels, next)
        (count_levels_from left fuel (suc i) n h few (omega arith) (omega arith))

  -- If leaf 0x0B is there and its levels end before subleaf 2 ^ 32, the loop ends, and the number of
  -- cores is the threads of the package divided by the threads of a core, rounded down. The threads of
  -- the package are the count of the last level of type 2, or that of leaf 1 if it is 0; the threads
  -- of a core are the count of the last level of type 1, or 1 if it is 0, so there is no division by 0.
  pub cpu_physical_cores_lem :
      (fuel n : ℕ)
      → HasLevels n
      → n < 2 ^ 32
      → n < fuel
      → 0x0B ≤ (cpuid 0).eax
      → (cpuid 0).eax < 2 ^ 31
      → (cores package_threads core_threads : ℕ) × (cpu_physical_cores cpuid cpuid_count fuel
          ≡ ok cores)
        × IsGivenOr (last_level 2 n) ((cpuid 1).ebx / 2 ^ 16 % 2 ^ 8) package_threads
        × IsGivenOr (last_level 1 n) 1 core_threads
        × (0 < core_threads)
        × (cores * core_threads ≤ package_threads)
        × (package_threads < cores * core_threads + core_threads)
  unfolding cpu_physical_cores last_level
  cpu_physical_cores_lem fuel n h few enough there positive =
      let supported : (ltb (cpuid 0).eax 0x0B || leb (2 ^ 31) (cpuid 0).eax) ≡ false =
        ground arith in
      let smt = last_level 1 n in
      let logical = last_level 2 n in
      let total = if logical == 0 then (cpuid 1).ebx / 2 ^ 16 % 2 ^ 8 else logical in
      let per_core = if smt == 0 then 1 else smt in
      let some_threads : 0 < per_core = ground arith in
      (
        cores_of cpuid cpuid_count smt logical,
        total,
        per_core,
        rw supported (
            ap (λ r. r >>= λ l. ok (cores_of cpuid cpuid_count l.0 l.1))
              (count_levels_from n fuel 0 n h few (omega arith) enough)),
        given_or logical _,
        given_or smt 1,
        some_threads,
        div-mul-le_self total per_core,
        lt-div-mul-add some_threads,
      )
