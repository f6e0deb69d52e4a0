-- ===== src/State.antt =====
-- internal/state/store.go: the retention rules that decide what may be published. An operation takes
-- the store and returns the new one; the mutex makes each of them one step.
mod Types
mod Target
pub mod Retention
pub mod Growth
pub mod Tracking
pub mod Validity
pub mod Counters
pub mod Refinement
unfoldable pub use Types.*
unfoldable pub use Target.*
use directory_size_exporter.Base.{
  ℕ, Bool, true, false, ◌&&◌, Option, none, some, List, [], ◌∷◌, ◌++◌, Str, str_eq, if◌then◌else◌,
  sub64, is_pos64, lt64, time_sub, unix,
}
use mathlib.Core.Option
use Types.{outcome_eq}
use directory_size_exporter.Base.Dict.{lookup, insert, has}

-- One round of the loop of `SetTargets`: a target seen before in the list is skipped, and the state
-- of a tracked one is kept.
unfoldable pub admit :
    List (Str × TargetState)
    → Str
    → List (Str × TargetState) × List Str
    → List (Str × TargetState) × List Str
admit tracked target (next, order) = if has target next then (next, order) else (
  insert target (Option.get_or (lookup target tracked) new_target_state) next,
  order ++ target ∷ [],
)

unfoldable pub admit_all :
    List (Str × TargetState)
    → List Str
    → List (Str × TargetState) × List Str
    → List (Str × TargetState) × List Str
admit_all tracked [] acc = acc
admit_all tracked (target ∷ targets) acc = admit_all tracked targets (admit tracked target acc)

unfoldable pub set_targets : List Str → Store → Store
unfolding admit_all admit
set_targets targets s =
    let (next, order) = admit_all s.targets targets ([], []) in
    record s { targets = next; order = order }

-- `New`
unfoldable pub new_store : List Str → Options → Store
unfolding set_targets
new_store targets opts = set_targets targets (record { opts = opts; targets = []; order = [] })

unfoldable pub mark_scan_started : ℕ → Str → Store → Store
mark_scan_started now target s = elim (lookup target s.targets) [
  | none ↦ s
  | some ts ↦ record s {
    targets = insert target (record ts { scanning = true; scan_started_at = now }) s.targets;
  }
]

-- A result for a target that is no longer tracked is dropped.
unfoldable pub apply : ℕ → Result → Store → Store
apply now r s = elim (lookup r.target s.targets) [
  | none ↦ s
  | some ts ↦ record s { targets = insert r.target (apply_to_target s.opts now r ts) s.targets }
]

-- `applyMeasurement`
abbrev pub apply_measurement : Snapshot → Measurement → Snapshot
apply_measurement snap m = record snap {
  size_bytes = m.size;
  alloc_bytes = m.alloc;
  files = m.files;
  directories = m.directories;
  hardlinked_files = m.hardlinked_files;
  dedup_saved_bytes = m.dedup_saved_bytes;
  hardlink_tracking_exhausted = m.hardlink_tracking_exhausted;
}

-- The first part of `snapshotLocked`: status, counters and progress.
abbrev pub status_snapshot : Str → TargetState → ℕ → Snapshot
status_snapshot target state now = record {
  target = target;
  has_attempt = state.has_attempt;
  success = state.success;
  partial = state.partial;
  present = state.present;
  has_good = false;
  size_bytes = 0;
  alloc_bytes = 0;
  files = 0;
  directories = 0;
  hardlinked_files = 0;
  dedup_saved_bytes = 0;
  hardlink_tracking_exhausted = false;
  last_good_timestamp = 0;
  scan_age_seconds = 0;
  has_delta = false;
  delta_bytes = 0;
  delta_interval_seconds = 0;
  bytes_added_total = state.bytes_added;
  bytes_removed_total = state.bytes_removed;
  last_attempt_timestamp = if state.has_attempt then unix state.attempt_at else 0;
  last_scan_duration_seconds = if state.has_attempt then state.last_duration else 0;
  last_errors = copy_into state.last_errors [];
  errors_total = copy_into state.errors_total [];
  vanished_total = state.vanished_total;
  scans_total = copy_into state.scans_total [];
  entries_total = state.entries_total;
  stat_calls_total = state.stat_calls_total;
  dirs_read_total = state.dirs_read_total;
  skipped_other_filesystem_total = state.skipped_xdev_total;
  in_progress = state.scanning;
  current_scan_duration_seconds = if state.scanning then time_sub now state.scan_started_at else 0;
}

-- The last part: the delta between the two last completed scans.
abbrev pub add_delta : TargetState → Snapshot → Snapshot
add_delta state snap =
    if state.has_previous_good
    then record snap {
      has_delta = true;
      delta_bytes = sub64 state.good.size state.previous_good_size;
      delta_interval_seconds = time_sub state.good_at state.previous_good_at;
    }
    else snap

-- Beyond the staleness threshold, where there is one.
unfoldable pub is_stale : Options → ℕ → Bool
is_stale opts age = is_pos64 opts.stale_after && lt64 opts.stale_after age

unfoldable pub snapshot_locked : Options → Str → TargetState → ℕ → Snapshot
snapshot_locked opts target state now =
    let snap = status_snapshot target state now in
    let age = time_sub now state.good_at in
    let dated = record snap { last_good_timestamp = unix state.good_at; scan_age_seconds = age } in
    if state.has_good
    then (if is_stale opts age
        then dated
        else add_delta state
            (apply_measurement (record dated { has_good = state.has_published }) state.published))
    else if state.has_published
    then apply_measurement (record snap { has_good = true }) state.published
    else snap

-- The loop of `Snapshot`. `none` is the panic on a nil state, for a path of the order that the map
-- does not hold.
unfoldable pub snapshots_of : Store → ℕ → List Str → Option (List Snapshot)
snapshots_of s now [] = some []
snapshots_of s now (target ∷ order) = elim (lookup target s.targets) [
  | none ↦ none
  | some state ↦
      Option.map (λ rest. snapshot_locked s.opts target state now ∷ rest) (snapshots_of s now order)
]

unfoldable pub snapshot : ℕ → Store → Option (List Snapshot)
unfolding snapshots_of
snapshot now s = snapshots_of s now s.order

abbrev pub targets_of : Store → List Str
targets_of s = s.order

unfoldable pub snapshot_for : ℕ → Str → Store → Option Snapshot
snapshot_for now target s =
    Option.map (λ state. snapshot_locked s.opts target state now) (lookup target s.targets)
