-- ===== src/State/Target.antt =====
-- internal/state/store.go: the retained state of one target, and how a finished scan changes it.
use mathlib.Core.Bool.{not}
use directory_size_exporter.Base.{
  ℕ, true, false, ◌&&◌, Option, none, some, List, [], ◌∷◌, Str, str_eq, Eq, if◌then◌else◌, ◌==◌,
  add64, sub64, neg64, is_pos64,
}
use directory_size_exporter.Base.Dict.{lookup, insert}
use directory_size_exporter.State.Types.{
  Outcome, complete, partial, cancelled, missing, outcome_eq, Result, Options, Measurement,
  TargetState,
}

abbrev pub no_measurement : Measurement
no_measurement = record {
  size = 0;
  alloc = 0;
  files = 0;
  directories = 0;
  hardlinked_files = 0;
  dedup_saved_bytes = 0;
  hardlink_tracking_exhausted = false;
}

-- `measurementOf`
abbrev pub measurement_of : Result → Measurement
measurement_of r = record {
  size = r.size_bytes;
  alloc = r.alloc_bytes;
  files = r.files;
  directories = r.directories;
  hardlinked_files = r.hardlinked_files;
  dedup_saved_bytes = r.dedup_saved_bytes;
  hardlink_tracking_exhausted = r.hardlink_tracking_exhausted;
}

-- `newTargetState`
abbrev pub new_target_state : TargetState
new_target_state = record {
  published = no_measurement;
  has_published = false;
  good = no_measurement;
  has_good = false;
  good_at = 0;
  previous_good_at = 0;
  has_previous_good = false;
  previous_good_size = 0;
  has_attempt = false;
  attempt_at = 0;
  last_duration = 0;
  success = false;
  partial = false;
  present = false;
  last_errors = [];
  bytes_added = 0;
  bytes_removed = 0;
  errors_total = [];
  vanished_total = 0;
  scans_total = [];
  entries_total = 0;
  stat_calls_total = 0;
  dirs_read_total = 0;
  skipped_xdev_total = 0;
  scan_started_at = 0;
  scanning = false;
}

-- `m[k]` of a map of counters: 0 where the key is absent.
abbrev pub count_or_zero : Option ℕ → ℕ
count_or_zero none = 0
count_or_zero (some n) = n

-- The loop `for k, v := range source { out[k] = v }`; of `copyIntMap`, `copyUintMap` and
-- `copyOutcomeMap`, which differ in the types of keys alone, and of the last errors in `Apply`.
unfoldable pub copy_into {ℓ} : {K : Type ℓ} ⦃e : Eq K⦄ → List (K × ℕ) → List (K × ℕ) → List (K × ℕ)
copy_into [] out = out
copy_into ((k, v) ∷ source) out = copy_into source (insert k v out)

-- `errorsTotal[class] += uint64(count)`, for each class of the result.
unfoldable pub add_errors : List (Str × ℕ) → List (Str × ℕ) → List (Str × ℕ)
add_errors [] total = total
add_errors ((class, count) ∷ errors) total =
    add_errors errors (insert class (add64 (count_or_zero (lookup class total)) count) total)

-- `scansTotal[r.Outcome]++`, with the end of the walk.
abbrev pub count_scan : Outcome → TargetState → TargetState
count_scan o ts = record ts {
  scanning = false;
  scans_total = insert o (add64 (count_or_zero (lookup o ts.scans_total)) 1) ts.scans_total;
}

-- The status of the attempt and the cumulative counters.
abbrev pub record_attempt : ℕ → Result → TargetState → TargetState
record_attempt now r ts = record ts {
  has_attempt = true;
  attempt_at = now;
  last_duration = r.duration_seconds;
  success = r.outcome == complete;
  partial = not (r.outcome == complete) && not (r.outcome == missing);
  present = not (r.outcome == missing);
  last_errors = copy_into r.errors [];
  errors_total = add_errors r.errors ts.errors_total;
  vanished_total = add64 ts.vanished_total r.vanished_files;
  entries_total = add64 ts.entries_total r.entries_scanned;
  stat_calls_total = add64 ts.stat_calls_total r.stat_calls;
  dirs_read_total = add64 ts.dirs_read_total r.dirs_read;
  skipped_xdev_total = add64 ts.skipped_xdev_total r.skipped_other_filesystem;
}

-- The step from the last good measurement to this one, where there is a last one.
abbrev pub record_growth : Result → TargetState → TargetState
record_growth r ts =
    let delta = sub64 r.size_bytes ts.good.size in
    let spanned = record ts {
      previous_good_size = ts.good.size;
      previous_good_at = ts.good_at;
      has_previous_good = true;
    } in
    if is_pos64 delta
    then record spanned { bytes_added = add64 ts.bytes_added delta }
    else record spanned { bytes_removed = add64 ts.bytes_removed (neg64 delta) }

abbrev pub record_good : ℕ → Result → TargetState → TargetState
record_good now r ts = record ts {
  good = measurement_of r;
  has_good = true;
  good_at = now;
  published = measurement_of r;
  has_published = true;
}

-- `Apply` below its lookup: the whole retention table.
unfoldable pub apply_to_target : Options → ℕ → Result → TargetState → TargetState
apply_to_target opts now r before =
    let counted = count_scan r.outcome before in
    let ts = record_attempt now r counted in
    if r.outcome == cancelled
    then counted
    else if not (r.outcome == complete)
    then (if opts.publish_partial && r.outcome == partial
        then record ts { published = measurement_of r; has_published = true }
        else ts)
    else record_good now r (if ts.has_good then record_growth r ts else ts)
