-- ===== src/State/Refinement.antt =====
-- The store of internal/state/store.go against a description that keeps, for each target, only the
-- log of what it was told since it was last taken up.
use mathlib.Core.Option
use directory_size_exporter.Base.{
  ℕ, ◌≡◌, refl, true, Bool-cases, inl, inr, Option, none, some, Option-cases, List, [], ◌∷◌, Str,
  str_eq, str_beq_iff, ◌==◌, arith, if◌then◌else◌, ◌∙◌,
}
use directory_size_exporter.Base.Dict.{lookup, contains, lookup-insert}
use directory_size_exporter.State.{
  Result, Options, TargetState, Store, new_target_state, apply_to_target, set_targets, new_store,
  mark_scan_started,
}
use directory_size_exporter.State.Tracking.{lookup-set_targets}
use directory_size_exporter.State.Validity.{
  Call, set_targets_to, scan_started, scan_finished, perform, perform_all, lookup-apply,
}

-- What a tracked target is told.
pub data LogEntry : Type 0 where
  started : (now : ℕ) → LogEntry
  finished : (now : ℕ) → Result → LogEntry

-- The logs, the newest entry first; `none` is a target that is not tracked.
abbrev pub Logs : Type 0
Logs = Str → Option (List LogEntry)

abbrev pub note : Str → LogEntry → Logs → Logs
note target e logs j = if target == j then Option.map (λ log. e ∷ log) (logs j) else logs j

abbrev pub perform_logged : Call → Logs → Logs
perform_logged (set_targets_to targets) logs j =
    if contains j targets then some (Option.get_or (logs j) []) else none
perform_logged (scan_started now target) logs j = note target (started now) logs j
perform_logged (scan_finished now r) logs j = note r.target (finished now r) logs j

unfoldable pub perform_all_logged : List Call → Logs → Logs
perform_all_logged [] logs = logs
perform_all_logged (c ∷ cs) logs = perform_all_logged cs (perform_logged c logs)

-- The state of a target from its log.
unfoldable pub replay : Options → List LogEntry → TargetState
replay opts [] = new_target_state
replay opts (started now ∷ log) = record (replay opts log) {
  scanning = true;
  scan_started_at = now;
}
replay opts (finished now r ∷ log) = apply_to_target opts now r (replay opts log)

-- The store holds what the logs replay to.
pub record Refines (opts : Options) (logs : Logs) (s : Store) : Type 0 where
  pub same_options : s.opts ≡ opts
  pub replayed : (j : Str) → lookup j s.targets ≡ Option.map (replay opts) (logs j)

lookup-mark_scan_started :
    (t : Str) (now : ℕ) (target : Str) (s : Store)
    → (lookup t (mark_scan_started now target s).targets ≡ (
        if target == t
        then Option.map
            (λ (ts : TargetState). record ts { scanning = true; scan_started_at = now })
            (lookup t s.targets)
        else lookup t s.targets))
      × ((mark_scan_started now target s).opts ≡ s.opts)
unfolding mark_scan_started
lookup-mark_scan_started t now target s = elim (Option-cases (lookup target s.targets)) [
  | inl gone ↦ ground (arith, str_beq_iff target t)
  | inr (ts, found) ↦ ground (
    arith,
    str_beq_iff target t,
    lookup-insert target t (record ts { scanning = true; scan_started_at = now }) s.targets,
  )
]

perform-Refines :
    (opts : Options) (c : Call) (logs : Logs) (s : Store)
    → Refines opts logs s
    → Refines opts (perform_logged c logs) (perform c s)
unfolding perform replay set_targets
perform-Refines opts (set_targets_to targets) logs s h = record {
  same_options = h.same_options;
  replayed = λ j. ground (
    arith,
    lookup-set_targets targets s j,
    h.replayed j,
    Option-cases (logs j),
    Bool-cases (contains j targets),
  );
}
perform-Refines opts (scan_started now target) logs s h = record {
  same_options = (lookup-mark_scan_started target now target s).1 ∙ h.same_options;
  replayed = λ j.
      ground (arith, lookup-mark_scan_started j now target s, h.replayed j, Option-cases (logs j));
}
perform-Refines opts (scan_finished now r) logs s h = record {
  same_options = (lookup-apply r.target now r s).1 ∙ h.same_options;
  replayed = λ j.
      ground (arith, lookup-apply j now r s, h.replayed j, h.same_options, Option-cases (logs j));
}

perform_all-Refines :
    (opts : Options) (cs : List Call) (logs : Logs) (s : Store)
    → Refines opts logs s
    → Refines opts (perform_all_logged cs logs) (perform_all cs s)
unfolding perform_all perform_all_logged
perform_all-Refines opts [] logs s h = h
perform_all-Refines opts (c ∷ cs) logs s h =
    perform_all-Refines opts cs (perform_logged c logs) (perform c s)
      (perform-Refines opts c logs s h)

-- The logs of a new store.
abbrev pub first_logs : List Str → Logs
first_logs targets j = if contains j targets then some [] else none

-- Whatever calls are made of a new store, for every path the state in the map is what the log of that
-- path replays to: the calls about other paths leave no trace in it, a target that a new list of
-- targets keeps keeps its log, and one that was dropped and comes back starts with an empty log.
pub store_refines_logs :
    (targets : List Str) (opts : Options) (cs : List Call) (j : Str)
    → lookup j (perform_all cs (new_store targets opts)).targets
      ≡ Option.map (replay opts) (perform_all_logged cs (first_logs targets) j)
unfolding new_store set_targets replay lookup
store_refines_logs targets opts cs j =
    let blank : Store = record { opts = opts; targets = []; order = [] } in
    let first : Refines opts (first_logs targets) (new_store targets opts) = record {
      same_options = refl;
      replayed =
          λ k. ground (arith, lookup-set_targets targets blank k, Bool-cases (contains k targets));
    } in
    (perform_all-Refines opts cs (first_logs targets) (new_store targets opts) first).replayed j
