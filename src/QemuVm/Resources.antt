-- ===== src/QemuVm/Resources.antt =====
-- qemu_vm.py: `resolve_max_resources`. What the system has, and the megabytes that a text of a size
-- asks for, are given; a number of CPUs is not negative.
use sbnb.Prelude.{
  false, true, ℕ, ◌-◌, ◌≤◌, max, ltb, Option, none, some, if◌then◌else◌, arith, ◌≡◌, refl,
}
use sbnb.ApplyResults.Record.{Text}

-- what is asked for: none is `max`, and a text of a size comes with its megabytes
pub record Asked : Type 0 where
  pub vcpu : Option ℕ
  pub mem : Option (Text × Option ℕ)

-- `f"{max_mem_mb}M"`, or the text that was given
pub data Memory : Type 0 where
  megabytes : ℕ → Memory
  as_given : Text → Memory

abbrev pub max_vcpu : ℕ → ℕ
max_vcpu total_cpus = max (total_cpus - 2) 1

abbrev pub max_mem_mb : ℕ → ℕ
max_mem_mb total_mem_mb = max (total_mem_mb - 2048) 1024

pub resolved_vcpu : ℕ → Option ℕ → ℕ
resolved_vcpu limit none = limit
resolved_vcpu limit (some vcpu) = if ltb limit vcpu then limit else vcpu

pub resolved_mem : ℕ → Option (Text × Option ℕ) → Memory
resolved_mem limit none = megabytes limit
resolved_mem limit (some (mem, none)) = as_given mem
resolved_mem limit (some (mem, some requested_mb)) =
    if ltb limit requested_mb then megabytes limit else as_given mem

-- `resolve_max_resources`
unfoldable pub resolve_max_resources : ℕ → ℕ → Asked → ℕ × Memory
unfolding resolved_vcpu resolved_mem
resolve_max_resources total_cpus total_mem_mb asked = (
  resolved_vcpu (max_vcpu total_cpus) asked.vcpu,
  resolved_mem (max_mem_mb total_mem_mb) asked.mem,
)

-- The memory is of the limit, or the text that was given where it asks for no more than the limit.
abbrev pub IsCapped : ℕ → Option (Text × Option ℕ) → Memory → Type 0
IsCapped limit asked (megabytes n) = n ≡ limit
IsCapped limit none (as_given t) = true ≡ false
IsCapped limit (some (mem, none)) (as_given t) = t ≡ mem
IsCapped limit (some (mem, some requested_mb)) (as_given t) = (t ≡ mem) × (requested_mb ≤ limit)

resolved_vcpu_bounded : (limit : ℕ) (asked : Option ℕ) → resolved_vcpu limit asked ≤ limit
unfolding resolved_vcpu
resolved_vcpu_bounded limit none = omega arith
resolved_vcpu_bounded limit (some vcpu) = ground arith

resolved_mem-IsCapped :
    (limit : ℕ) (asked : Option (Text × Option ℕ)) → IsCapped limit asked (resolved_mem limit asked)
unfolding resolved_mem
resolved_mem-IsCapped limit none = refl
resolved_mem-IsCapped limit (some (mem, none)) = refl
resolved_mem-IsCapped limit (some (mem, some requested_mb)) = ground arith

-- A VM gets at most the CPUs of the system without two, or one, and its memory is capped at the
-- available megabytes without 2048, or at 1024.
pub resources_bounded :
    (total_cpus total_mem_mb : ℕ) (asked : Asked)
    → (let resolved = resolve_max_resources total_cpus total_mem_mb asked in
        (resolved.0 ≤ max_vcpu total_cpus)
        × IsCapped (max_mem_mb total_mem_mb) asked.mem resolved.1)
unfolding resolve_max_resources
resources_bounded total_cpus total_mem_mb asked = (
  resolved_vcpu_bounded (max_vcpu total_cpus) asked.vcpu,
  resolved_mem-IsCapped (max_mem_mb total_mem_mb) asked.mem,
)
