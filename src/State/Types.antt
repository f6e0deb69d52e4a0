-- ===== src/State/Types.antt =====
-- The data of internal/state/store.go: outcomes, results, snapshots and the retained state.
-- A float64 number of seconds is kept as the exact number of nanoseconds that it stands for; the
-- rounding of the conversion to float64 is not modelled. `ScanAgeSeconds`, `DurationSeconds` and the
-- like are such numbers. The Unix timestamps are whole seconds.
use mathlib.Core.List.{List, [], ◌∷◌}
use mathlib.Core.Path.{◌≡◌}
use mathlib.Core.Logic.{◌↔◌}
use mathlib.Core.Bool.{Bool, true, false}
use native.Mathlib.Omega.{arith}
use directory_size_exporter.Base.{ℕ, Str, str, Eq}

pub data Outcome : Type 0 where
  complete partial timeout cancelled missing root_error : Outcome

abbrev pub outcome_beq : Outcome → Outcome → Bool
outcome_beq complete complete = true
outcome_beq partial partial = true
outcome_beq timeout timeout = true
outcome_beq cancelled cancelled = true
outcome_beq missing missing = true
outcome_beq root_error root_error = true
outcome_beq _ _ = false

pub outcome_beq_iff : (a b : Outcome) → (outcome_beq a b ≡ true) ↔ (a ≡ b)
outcome_beq_iff complete b = ground arith
outcome_beq_iff a b = ground arith

instance abbrev pub outcome_eq : Eq Outcome
outcome_eq = record { beq = outcome_beq; beq_iff = outcome_beq_iff }

-- The text of an outcome.
abbrev pub outcome_name : Outcome → Str
outcome_name complete = str "complete"
outcome_name partial = str "partial"
outcome_name timeout = str "timeout"
outcome_name cancelled = str "cancelled"
outcome_name missing = str "missing"
outcome_name root_error = str "root_error"

abbrev pub all_outcomes : List Outcome
all_outcomes = complete ∷ partial ∷ timeout ∷ cancelled ∷ missing ∷ root_error ∷ []

-- One finished scan of one target.
pub record Result : Type 0 where
  pub target : Str
  pub outcome : Outcome
  pub size_bytes : ℕ
  pub alloc_bytes : ℕ
  pub files : ℕ
  pub directories : ℕ
  pub hardlinked_files : ℕ
  pub dedup_saved_bytes : ℕ
  pub hardlink_tracking_exhausted : Bool
  pub duration_seconds : ℕ
  pub errors : List (Str × ℕ)
  pub vanished_files : ℕ
  pub entries_scanned : ℕ
  pub stat_calls : ℕ
  pub dirs_read : ℕ
  pub skipped_other_filesystem : ℕ

-- What the collector renders for one target.
pub record Snapshot : Type 0 where
  pub target : Str
  pub has_attempt : Bool
  pub success : Bool
  pub partial : Bool
  pub present : Bool
  pub has_good : Bool
  pub size_bytes : ℕ
  pub alloc_bytes : ℕ
  pub files : ℕ
  pub directories : ℕ
  pub hardlinked_files : ℕ
  pub dedup_saved_bytes : ℕ
  pub hardlink_tracking_exhausted : Bool
  pub last_good_timestamp : ℕ
  pub scan_age_seconds : ℕ
  pub has_delta : Bool
  pub delta_bytes : ℕ
  pub delta_interval_seconds : ℕ
  pub bytes_added_total : ℕ
  pub bytes_removed_total : ℕ
  pub last_attempt_timestamp : ℕ
  pub last_scan_duration_seconds : ℕ
  pub last_errors : List (Str × ℕ)
  pub errors_total : List (Str × ℕ)
  pub vanished_total : ℕ
  pub scans_total : List (Outcome × ℕ)
  pub entries_total : ℕ
  pub stat_calls_total : ℕ
  pub dirs_read_total : ℕ
  pub skipped_other_filesystem_total : ℕ
  pub in_progress : Bool
  pub current_scan_duration_seconds : ℕ

-- The clock `Now` is an argument of the operations: the instant that it returns at the call.
pub record Options : Type 0 where
  pub publish_partial : Bool
  pub stale_after : ℕ

pub record Measurement : Type 0 where
  pub size : ℕ
  pub alloc : ℕ
  pub files : ℕ
  pub directories : ℕ
  pub hardlinked_files : ℕ
  pub dedup_saved_bytes : ℕ
  pub hardlink_tracking_exhausted : Bool

pub record TargetState : Type 0 where
  pub published : Measurement
  pub has_published : Bool
  pub good : Measurement
  pub has_good : Bool
  pub good_at : ℕ
  pub previous_good_at : ℕ
  pub has_previous_good : Bool
  pub previous_good_size : ℕ
  pub has_attempt : Bool
  pub attempt_at : ℕ
  pub last_duration : ℕ
  pub success : Bool
  pub partial : Bool
  pub present : Bool
  pub last_errors : List (Str × ℕ)
  pub bytes_added : ℕ
  pub bytes_removed : ℕ
  pub errors_total : List (Str × ℕ)
  pub vanished_total : ℕ
  pub scans_total : List (Outcome × ℕ)
  pub entries_total : ℕ
  pub stat_calls_total : ℕ
  pub dirs_read_total : ℕ
  pub skipped_xdev_total : ℕ
  pub scan_started_at : ℕ
  pub scanning : Bool

-- `targets` maps a path to its state, and `order` is the configuration order. No two paths share a
-- state and nothing else keeps a pointer to one, so the map holds the states themselves.
pub record Store : Type 0 where
  pub opts : Options
  pub targets : List (Str × TargetState)
  pub order : List Str
