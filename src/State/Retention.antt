-- ===== src/State/Retention.antt =====
-- What a finished scan may change in the retained state of internal/state/store.go, for one result
-- and for a sequence of results.
use directory_size_exporter.Base.{
  ℕ, ◌≡◌, ◌≢◌, refl, ap, ◌∙◌, ◌⊎◌, inl, inr, Bool, false, ◌&&◌, ◌||◌, Option, none, some, List, [],
  ◌∷◌, arith, if◌then◌else◌, ◌==◌,
}
use directory_size_exporter.State.{
  Outcome, complete, partial, Result, Options, Measurement, TargetState, measurement_of,
  apply_to_target, outcome_eq,
}

-- A run of finished scans of one target, each with the clock at its end.
unfoldable pub run : Options → List (ℕ × Result) → TargetState → TargetState
run opts [] ts = ts
run opts ((now, r) ∷ rs) ts = run opts rs (apply_to_target opts now r ts)

-- The measurement that may be shown.
abbrev pub visible : TargetState → Option Measurement
visible ts = if ts.has_published then some ts.published else none

-- The outcomes that publish.
abbrev pub publishes : Options → Outcome → Bool
publishes opts o = o == complete || (opts.publish_partial && o == partial)

-- The specification: the last result that publishes, before it `shown`.
unfoldable pub last_publishing :
    Options → List (ℕ × Result) → Option Measurement → Option Measurement
last_publishing opts [] shown = shown
last_publishing opts ((now, r) ∷ rs) shown =
    last_publishing opts rs (if publishes opts r.outcome then some (measurement_of r) else shown)

visible-apply_to_target :
    (opts : Options) (now : ℕ) (r : Result) (ts : TargetState)
    → visible (apply_to_target opts now r ts)
      ≡ (if publishes opts r.outcome then some (measurement_of r) else visible ts)
unfolding apply_to_target
visible-apply_to_target opts now r ts = ground arith

-- After any run of finished scans the measurement that may be shown is that of the last scan that
-- was complete, or partial where partial results are published; with no such scan it is what it was
-- before the run.
pub visible-run :
    (opts : Options) (rs : List (ℕ × Result)) (ts : TargetState)
    → visible (run opts rs ts) ≡ last_publishing opts rs (visible ts)
unfolding run last_publishing
visible-run opts [] ts = refl
visible-run opts ((now, r) ∷ rs) ts =
    visible-run opts rs (apply_to_target opts now r ts)
    ∙ ap (last_publishing opts rs) (visible-apply_to_target opts now r ts)

-- What the deltas and the byte counters rest on.
pub record SameBaseline (a b : TargetState) : Type 0 where
  pub good : a.good ≡ b.good
  pub has_good : a.has_good ≡ b.has_good
  pub good_at : a.good_at ≡ b.good_at
  pub previous_good_at : a.previous_good_at ≡ b.previous_good_at
  pub has_previous_good : a.has_previous_good ≡ b.has_previous_good
  pub previous_good_size : a.previous_good_size ≡ b.previous_good_size
  pub bytes_added : a.bytes_added ≡ b.bytes_added
  pub bytes_removed : a.bytes_removed ≡ b.bytes_removed

-- A scan that is not complete leaves the baseline of the deltas and the byte counters as they were,
-- whether or not partial results are published.
pub failed_scan_keeps_baseline :
    (opts : Options) (now : ℕ) (r : Result) (ts : TargetState)
    → r.outcome ≢ complete
    → SameBaseline (apply_to_target opts now r ts) ts
unfolding apply_to_target
failed_scan_keeps_baseline opts now r ts h = ground arith

-- A scan that is not complete leaves what is shown as it was, if partial results are not published or
-- the scan is not partial either.
pub failed_scan_shows_nothing :
    (opts : Options) (now : ℕ) (r : Result) (ts : TargetState)
    → r.outcome ≢ complete
    → (opts.publish_partial ≡ false) ⊎ (r.outcome ≢ partial)
    → visible (apply_to_target opts now r ts) ≡ visible ts
unfolding apply_to_target
failed_scan_shows_nothing opts now r ts h (inl off) = ground arith
failed_scan_shows_nothing opts now r ts h (inr whole) = ground arith
