-- ===== src/Cpu/Tests.antt =====
-- A processor with 4 cores of 2 threads.
use knos.Base.{ℕ, zero, suc, ◌+◌, ◌*◌, ◌/◌, ◌%◌, ◌^◌, ◌≤◌, ◌≡◌, ◌<◌, refl, ok, arith}
use knos.Cpu.{Answer, level_type, count_levels, cpu_physical_cores}
use knos.Cpu.Cores.{IsGivenOr, HasLevels, last_level, cpu_physical_cores_lem}

abbrev answer : ℕ → ℕ → ℕ → Answer
answer eax ebx ecx = record { eax = eax; ebx = ebx; ecx = ecx; edx = 0 }

abbrev leaf : ℕ → Answer
leaf code = answer 0x16 0x080800 0

-- Subleaf 0 is the threads of a core, subleaf 1 the threads of the package.
abbrev level : ℕ → ℕ → Answer
level code zero = answer 1 2 0x100
level code (suc zero) = answer 3 8 0x201
level code (suc (suc n)) = answer 0 0 (suc (suc n))

level-HasLevels : HasLevels leaf level 2
level-HasLevels = record { ends = refl; before = some_level }
  where
    some_level : (i : ℕ) → i < 2 → ¬ (level_type leaf level i ≡ 0)
    some_level zero lt e = omega arith
    some_level (suc zero) lt e = omega arith
    some_level (suc (suc i)) lt e = omega arith

cpu_physical_cores_lem_example :
    (cores package_threads core_threads : ℕ) × (cpu_physical_cores leaf level 3 ≡ ok cores)
    × IsGivenOr (last_level leaf level 2 2) ((leaf 1).ebx / 2 ^ 16 % 2 ^ 8) package_threads
    × IsGivenOr (last_level leaf level 1 2) 1 core_threads
    × (0 < core_threads)
    × (cores * core_threads ≤ package_threads)
    × (package_threads < cores * core_threads + core_threads)
cpu_physical_cores_lem_example =
    cpu_physical_cores_lem leaf level 3 2 level-HasLevels (omega arith) (omega arith) (omega arith)
      (omega arith)

four_cores : cpu_physical_cores leaf level 3 ≡ ok 4
unfolding cpu_physical_cores count_levels
four_cores = refl
