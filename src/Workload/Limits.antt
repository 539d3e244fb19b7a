-- ===== src/Workload/Limits.antt =====
-- The resource limits of crates/picloud-domain/src/workload.rs, with `validate` and the conversions for
-- the cgroup. A violation is a constructor; the text of the error joins all of them.
use picloud.Prelude.{
  ℕ, ◌*◌, ◌%◌, ◌^◌, ◌≤◌, ◌≡◌, ◌↔◌, Bool, true, false, Option, none, some, List, [], ◌∷◌, ◌++◌, ltb,
  arith,
}
use picloud.Domain.Error.{
  Reason, cpu_below_minimum, cpu_above_maximum, memory_below_minimum, memory_above_maximum,
}

pub record ResourceLimits : Type 0 where
  pub cpu_millicores : Option ℕ
  pub memory_mb : Option ℕ

abbrev min_cpu_millicores : ℕ
min_cpu_millicores = 1

abbrev max_cpu_millicores : ℕ
max_cpu_millicores = 128000

abbrev min_memory_mb : ℕ
min_memory_mb = 4

abbrev max_memory_mb : ℕ
max_memory_mb = 1048576

abbrev push_if : Bool → Reason → List Reason → List Reason
push_if true e errors = errors ++ e ∷ []
push_if false e errors = errors

abbrev cpu_errors : Option ℕ → List Reason
cpu_errors none = []
cpu_errors (some cpu) =
    push_if (ltb max_cpu_millicores cpu) cpu_above_maximum
      (push_if (ltb cpu min_cpu_millicores) cpu_below_minimum [])

abbrev memory_errors : Option ℕ → List Reason → List Reason
memory_errors none errors = errors
memory_errors (some mem) errors =
    push_if (ltb max_memory_mb mem) memory_above_maximum
      (push_if (ltb mem min_memory_mb) memory_below_minimum errors)

-- The violations, of the processor first; none of them is `Ok(())`.
unfoldable pub validate : ResourceLimits → List Reason
validate l = memory_errors l.memory_mb (cpu_errors l.cpu_millicores)

abbrev pub map_option : (ℕ → ℕ) → Option ℕ → Option ℕ
map_option f none = none
map_option f (some n) = some (f n)

unfoldable memory_as_bytes : ResourceLimits → Option ℕ
memory_as_bytes l = map_option (λ mb. ((mb * 1024) * 1024) % 2 ^ 64) l.memory_mb

unfoldable cpu_as_cfs_quota_us : ResourceLimits → Option ℕ
cpu_as_cfs_quota_us l = map_option (λ m. (m * 100) % 2 ^ 64) l.cpu_millicores

-- What the limits are to be: each one absent or within its range.
abbrev pub Within : ℕ → ℕ → Option ℕ → Type 0
Within lo hi none = Unit
Within lo hi (some n) = (lo ≤ n) × (n ≤ hi)

cpu_errors_iff :
    (o : Option ℕ) → (cpu_errors o ≡ []) ↔ Within min_cpu_millicores max_cpu_millicores o
cpu_errors_iff none = ground arith
cpu_errors_iff (some n) = ground arith

memory_errors_iff :
    (o : Option ℕ) (errors : List Reason)
    → (memory_errors o errors ≡ []) ↔ ((errors ≡ []) × Within min_memory_mb max_memory_mb o)
memory_errors_iff none errors = ground arith
memory_errors_iff (some n) [] = ground arith
memory_errors_iff (some n) (e ∷ errors) = ground arith

-- `validate` finds nothing exactly when both limits are within their ranges.
validate_iff :
    (l : ResourceLimits)
    → (validate l ≡ []) ↔ (
        Within min_cpu_millicores max_cpu_millicores l.cpu_millicores
        × Within min_memory_mb max_memory_mb l.memory_mb)
unfolding validate
validate_iff l =
    let cpu = cpu_errors_iff l.cpu_millicores in
    let mem = memory_errors_iff l.memory_mb (cpu_errors l.cpu_millicores) in
    (λ h. (cpu.0 (mem.0 h).0, (mem.0 h).1), λ h. mem.1 (cpu.1 h.0, h.1))

bytes_fit :
    (o : Option ℕ) (mb : ℕ)
    → o ≡ some mb
    → Within min_memory_mb max_memory_mb o
    → (map_option (λ n. ((n * 1024) * 1024) % 2 ^ 64) o ≡ some (mb * 1048576))
      × (mb * 1048576 ≤ 2 ^ 40)
bytes_fit none mb e w = absurd (ground arith)
bytes_fit (some n) mb e w =
    let same : n ≡ mb = ground arith in (ground (arith, same), omega (arith, same))

quota_fit :
    (o : Option ℕ) (m : ℕ)
    → o ≡ some m
    → Within min_cpu_millicores max_cpu_millicores o
    → (map_option (λ n. (n * 100) % 2 ^ 64) o ≡ some (m * 100)) × (m * 100 ≤ 12800000)
quota_fit none m e w = absurd (ground arith)
quota_fit (some n) m e w =
    let same : n ≡ m = ground arith in (ground (arith, same), omega (arith, same))

-- Limits that pass are given to the kernel without wrapping around: the bytes are the megabytes times
-- 2^20, at most 2^40, and the quota is a hundred times the millicores, at most 12,800,000.
limits_fit :
    (l : ResourceLimits)
    → validate l ≡ []
    → ((mb : ℕ)
        → l.memory_mb ≡ some mb
        → (memory_as_bytes l ≡ some (mb * 1048576)) × (mb * 1048576 ≤ 2 ^ 40))
      × ((m : ℕ)
          → l.cpu_millicores ≡ some m
          → (cpu_as_cfs_quota_us l ≡ some (m * 100)) × (m * 100 ≤ 12800000))
unfolding memory_as_bytes cpu_as_cfs_quota_us
limits_fit l h =
    let within = (validate_iff l).0 h in
    (λ mb e. bytes_fit l.memory_mb mb e within.1, λ m e. quota_fit l.cpu_millicores m e within.0)
