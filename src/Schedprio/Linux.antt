-- ===== src/Schedprio/Linux.antt =====
-- internal/schedprio/schedprio_linux.go: the priority of the thread of a scan worker. The two system
-- calls are parameters, on a state of the kernel.
use directory_size_exporter.Base.{
  ℕ, ◌+◌, ◌*◌, ◌/◌, ◌%◌, ◌^◌, ◌≡◌, Option, none, some, if◌then◌else◌, nat_beq, arith,
}
use directory_size_exporter.Schedprio.{IoClass, class_none, best_effort, class_idle}

-- `Priority`; the nice value is an int.
pub record Priority : Type 0 where
  pub nice : ℕ
  pub io_class : IoClass

-- `ioprioClass`
unfoldable pub ioprio_class : IoClass → Option ℕ
ioprio_class class_idle = some 3
ioprio_class best_effort = some 2
ioprio_class class_none = none

-- The value of ioprio_set: the class above 13 bits of the level, which is 7 for the best effort alone.
unfoldable pub ioprio_value : ℕ → ℕ
ioprio_value class = class * 2 ^ 13 + (if nat_beq class 2 then 7 else 0)

-- Which call failed.
pub data PriorityError : Type 0 where
  set_nice set_io : PriorityError

-- Setpriority and ioprio_set on the calling thread: whether they fail, and the kernel after them.
pub record Calls (K : Type 0) : Type 0 where
  pub set_priority : ℕ → K → Option PriorityError × K
  pub ioprio_set : ℕ → K → Option PriorityError × K

module _ {K : Type 0} (calls : Calls K) where
  -- `applyToCurrentThread`
  unfoldable pub apply_to_current_thread : Priority → K → Option PriorityError × K
  unfolding ioprio_class ioprio_value
  apply_to_current_thread p k =
      let (failed, k') = calls.set_priority p.nice k in
      elim failed [
        | some err ↦ (some err, k')
        | none ↦ elim (ioprio_class p.io_class) [
          | none ↦ (none, k')
          | some class ↦ calls.ioprio_set (ioprio_value class) k'
        ]
      ]

-- The kernel reads the class and the level back from the value.
pub ioprio_value-reads :
    (class : ℕ)
    → (ioprio_value class / 2 ^ 13 ≡ class)
      × (ioprio_value class % 2 ^ 13 ≡ (if nat_beq class 2 then 7 else 0))
unfolding ioprio_value
ioprio_value-reads class = ground arith
