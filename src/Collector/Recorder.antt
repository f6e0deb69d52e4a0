-- ===== src/Collector/Recorder.antt =====
-- `Recorder` (internal/collector/collector.go): what the engine tells of its scans goes to the store
-- and, where it is enabled, to the histogram of durations.
use directory_size_exporter.Base.{ℕ, Bool, not, ◌&&◌, List, ◌∷◌, if◌then◌else◌, ◌==◌, Str}
use directory_size_exporter.State.{
  Outcome, outcome_eq, cancelled, Result, Store, apply, mark_scan_started,
}

-- The observations of the histogram are kept with the newest first.
pub record Recorder : Type 0 where
  pub store : Store
  pub observed : List (Outcome × ℕ)

-- `MarkScanStarted`
abbrev pub record_started : ℕ → Str → Recorder → Recorder
record_started now target r = record r { store = mark_scan_started now target r.store }

-- `Apply`
unfoldable pub record_result : Bool → ℕ → Result → Recorder → Recorder
record_result histogram now result r = record {
  store = apply now result r.store;
  observed =
      if histogram && not (result.outcome == cancelled)
      then (result.outcome, result.duration_seconds) ∷ r.observed
      else r.observed;
}
