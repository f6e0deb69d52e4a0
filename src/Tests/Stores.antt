-- ===== src/Tests/Stores.antt =====
-- Examples for internal/state/store.go.
use mathlib.Core.Option
use directory_size_exporter.Base.{
  ◌+◌, ◌-◌, ◌≡◌, refl, true, some, List, [], ◌∷◌, str_eq, str_beq, arith, time_sub,
}
use directory_size_exporter.Base.Dict.{lookup, contains, Distinct}
use directory_size_exporter.State.{
  complete, partial, outcome_eq, TargetState, measurement_of, new_target_state, apply_to_target,
  set_targets, new_store, snapshot_locked, is_stale,
}
use directory_size_exporter.State.Retention.{run, visible, last_publishing, visible-run}
use directory_size_exporter.State.Growth.{completed, delta_spans_completed, growth_exact}
use directory_size_exporter.State.Tracking.{set_targets_lem}
use directory_size_exporter.State.Validity.{
  IsValid, Call, set_targets_to, scan_started, scan_finished, perform_all, history-IsValid,
}
use directory_size_exporter.State.Refinement.{
  finished, replay, perform_all_logged, first_logs, store_refines_logs,
}
use directory_size_exporter.Tests.{day, night, scanned, strict, four_scans}

visible-run_example :
    visible (run strict four_scans new_target_state) ≡ some (measurement_of (scanned complete 30))
unfolding last_publishing
visible-run_example = visible-run strict four_scans new_target_state

delta_spans_completed_example :
    let snap = snapshot_locked strict day (run strict four_scans new_target_state) 500 in
    (snap.has_delta ≡ true)
    × (snap.delta_bytes ≡ 20)
    × (snap.delta_interval_seconds ≡ time_sub 300 100)
unfolding completed is_stale time_sub
delta_spans_completed_example =
    delta_spans_completed strict day four_scans 500 300 100 (scanned complete 30)
      (scanned complete 10) [] refl refl

-- The state after one completed scan.
abbrev measured_once : TargetState
measured_once = apply_to_target strict 100 (scanned complete 10) new_target_state

growth_exact_example :
    ((apply_to_target strict 300 (scanned complete 30) measured_once).bytes_added
      ≡ measured_once.bytes_added + (30 - measured_once.good.size))
    × ((apply_to_target strict 300 (scanned complete 30) measured_once).bytes_removed
        ≡ measured_once.bytes_removed + (measured_once.good.size - 30))
unfolding apply_to_target
growth_exact_example =
    growth_exact strict 300 (scanned complete 30) measured_once refl refl (omega arith)
      (ground arith) (ground arith) (ground arith)

set_targets_lem_example :
    let s = set_targets (night ∷ day ∷ night ∷ []) (new_store (day ∷ []) strict) in
    (lookup night s.targets
      ≡ some (Option.get_or (lookup night (new_store (day ∷ []) strict).targets) new_target_state))
    × (contains night s.order ≡ true)
    × Distinct s.order
unfolding contains str_beq
set_targets_lem_example =
    set_targets_lem (night ∷ day ∷ night ∷ []) (new_store (day ∷ []) strict) night

-- A history of a store: a scan, and a change of the targets.
abbrev history : List Call
history =
    scan_started 90 day
    ∷ scan_finished 100 (scanned complete 10)
    ∷ set_targets_to (night ∷ day ∷ [])
    ∷ []

history-IsValid_example : IsValid (perform_all history (new_store (day ∷ []) strict))
history-IsValid_example = history-IsValid (day ∷ []) strict history

-- A target that is dropped while it is scanned, and comes back.
abbrev comings_and_goings : List Call
comings_and_goings =
    scan_started 100 day
    ∷ scan_finished 200 (scanned complete 10)
    ∷ set_targets_to (night ∷ [])
    ∷ scan_finished 300 (scanned complete 30)
    ∷ set_targets_to (day ∷ night ∷ [])
    ∷ scan_finished 400 (scanned partial 4)
    ∷ []

store_refines_logs_example :
    lookup day (perform_all comings_and_goings (new_store (day ∷ []) strict)).targets
    ≡ Option.map (replay strict) (perform_all_logged comings_and_goings (first_logs (day ∷ [])) day)
store_refines_logs_example = store_refines_logs (day ∷ []) strict comings_and_goings day

-- Only what it was told since it came back is in its log.
logged :
    perform_all_logged comings_and_goings (first_logs (day ∷ [])) day
    ≡ some (finished 400 (scanned partial 4) ∷ [])
unfolding perform_all_logged contains str_beq
logged = refl
