-- ===== src/State/Growth.antt =====
-- The deltas and the byte counters of internal/state/store.go, over sequences of finished scans.
use directory_size_exporter.Base.{
  ℕ, ◌+◌, ◌-◌, ◌%◌, ◌^◌, ◌<◌, ◌≡◌, refl, ◌⊎◌, true, false, List, [], ◌∷◌, Str, arith, if◌then◌else◌,
  ◌==◌, sub64, time_sub, inl, inr,
}
use directory_size_exporter.State.{
  complete, Result, Options, TargetState, measurement_of, new_target_state, apply_to_target,
  outcome_eq, snapshot_locked, is_stale,
}
use directory_size_exporter.State.Retention.{run}

-- The specification: the completed scans of a run, the latest first, before `older`.
unfoldable pub completed : List (ℕ × Result) → List (ℕ × Result) → List (ℕ × Result)
completed [] older = older
completed ((now, r) ∷ rs) older =
    completed rs (if r.outcome == complete then (now, r) ∷ older else older)

-- The baseline holds the last completed scan, and the size and time of the one before.
abbrev pub IsBaseline : List (ℕ × Result) → TargetState → Type 0
IsBaseline [] ts = (ts.has_good ≡ false) × (ts.has_previous_good ≡ false)
IsBaseline ((now, r) ∷ []) ts =
    (ts.has_good ≡ true)
    × (ts.has_published ≡ true)
    × (ts.good ≡ measurement_of r)
    × (ts.good_at ≡ now)
    × (ts.has_previous_good ≡ false)
IsBaseline ((now, r) ∷ (before, q) ∷ older) ts =
    (ts.has_good ≡ true)
    × (ts.has_published ≡ true)
    × (ts.good ≡ measurement_of r)
    × (ts.good_at ≡ now)
    × (ts.has_previous_good ≡ true)
    × (ts.previous_good_size ≡ q.size_bytes)
    × (ts.previous_good_at ≡ before)

apply_to_target-IsBaseline :
    (opts : Options) (now : ℕ) (r : Result) (ts : TargetState) (older : List (ℕ × Result))
    → IsBaseline older ts
    → IsBaseline
        (if r.outcome == complete then (now, r) ∷ older else older)
        (apply_to_target opts now r ts)
unfolding apply_to_target
apply_to_target-IsBaseline opts now r ts [] h = ground arith
apply_to_target-IsBaseline opts now r ts ((n, q) ∷ []) h = ground arith
apply_to_target-IsBaseline opts now r ts ((n, q) ∷ (n', q') ∷ older) h = ground arith

run-IsBaseline :
    (opts : Options) (rs : List (ℕ × Result)) (ts : TargetState) (older : List (ℕ × Result))
    → IsBaseline older ts
    → IsBaseline (completed rs older) (run opts rs ts)
unfolding run completed
run-IsBaseline opts [] ts older h = h
run-IsBaseline opts ((now, r) ∷ rs) ts older h =
    run-IsBaseline opts rs (apply_to_target opts now r ts)
      (if r.outcome == complete then (now, r) ∷ older else older)
      (apply_to_target-IsBaseline opts now r ts older h)

run_of_new :
    (opts : Options) (rs : List (ℕ × Result)) (older : List (ℕ × Result))
    → completed rs [] ≡ older
    → IsBaseline older (run opts rs new_target_state)
run_of_new opts rs older h = rw h at (run-IsBaseline opts rs new_target_state [] (refl, refl))

delta-snapshot_locked :
    (opts : Options) (target : Str) (ts : TargetState) (now at before : ℕ) (r q : Result)
    (older : List (ℕ × Result))
    → IsBaseline ((at, r) ∷ (before, q) ∷ older) ts
    → is_stale opts (time_sub now at) ≡ false
    → let snap = snapshot_locked opts target ts now in
      (snap.has_delta ≡ true)
      × (snap.delta_bytes ≡ sub64 r.size_bytes q.size_bytes)
      × (snap.delta_interval_seconds ≡ time_sub at before)
unfolding snapshot_locked
delta-snapshot_locked opts target ts now at before r q older (hg, hp, g, e, prev, size, since)
      fresh =
    let fresh' : is_stale opts (time_sub now ts.good_at) ≡ false = rw e fresh in ground arith

no_delta-snapshot_locked :
    (opts : Options) (target : Str) (ts : TargetState) (now : ℕ)
    → ts.has_previous_good ≡ false
    → (snapshot_locked opts target ts now).has_delta ≡ false
unfolding snapshot_locked
no_delta-snapshot_locked opts target ts now h = ground arith

-- After a run of finished scans of a new target, of which the two last completed ones ended at
-- `before` with result `q` and at `at` with result `r`, a snapshot that is not stale reports the
-- delta of exactly these two sizes and the time between them, whatever failed in between.
pub delta_spans_completed :
    (opts : Options) (target : Str) (rs : List (ℕ × Result)) (now at before : ℕ) (r q : Result)
    (older : List (ℕ × Result))
    → completed rs [] ≡ (at, r) ∷ (before, q) ∷ older
    → is_stale opts (time_sub now at) ≡ false
    → let snap = snapshot_locked opts target (run opts rs new_target_state) now in
      (snap.has_delta ≡ true)
      × (snap.delta_bytes ≡ sub64 r.size_bytes q.size_bytes)
      × (snap.delta_interval_seconds ≡ time_sub at before)
delta_spans_completed opts target rs now at before r q older h fresh =
    delta-snapshot_locked opts target _ now at before r q older (run_of_new opts rs _ h) fresh

-- After a run of finished scans of a new target of which at most one completed, a snapshot has no
-- delta.
pub no_delta_before_two :
    (opts : Options) (target : Str) (rs : List (ℕ × Result)) (now at : ℕ) (r : Result)
    → (completed rs [] ≡ []) ⊎ (completed rs [] ≡ (at, r) ∷ [])
    → (snapshot_locked opts target (run opts rs new_target_state) now).has_delta ≡ false
no_delta_before_two opts target rs now at r (inl h) =
    no_delta-snapshot_locked opts target _ now (run_of_new opts rs _ h).1
no_delta_before_two opts target rs now at r (inr h) =
    no_delta-snapshot_locked opts target _ now (run_of_new opts rs _ h).4

-- The balance that the byte counters keep, modulo 2 ^ 64.
abbrev pub IsBalanced : TargetState → TargetState → Type 0
IsBalanced a b =
    (a.bytes_added + b.bytes_removed + b.good.size) % 2 ^ 64
    ≡ (b.bytes_added + a.bytes_removed + a.good.size) % 2 ^ 64

apply_to_target-IsBalanced :
    (opts : Options) (now : ℕ) (r : Result) (ts : TargetState)
    → ts.has_good ≡ true
    → IsBalanced ts (apply_to_target opts now r ts)
      × ((apply_to_target opts now r ts).has_good ≡ true)
unfolding apply_to_target
apply_to_target-IsBalanced opts now r ts h = ground arith

-- Once a scan has completed, any further run of finished scans keeps the balance of the byte
-- counters: modulo 2 ^ 64, the bytes added less the bytes removed by the run are the size at its
-- end less the size at its start.
pub run-IsBalanced :
    (opts : Options) (rs : List (ℕ × Result)) (ts : TargetState)
    → ts.has_good ≡ true
    → IsBalanced ts (run opts rs ts)
unfolding run
run-IsBalanced opts [] ts h = refl
run-IsBalanced opts ((now, r) ∷ rs) ts h =
    let (step, still) = apply_to_target-IsBalanced opts now r ts h in
    omega (arith, step, run-IsBalanced opts rs (apply_to_target opts now r ts) still)

-- A completed scan adds the growth to `bytes_added`, or the shrinkage to `bytes_removed`, and leaves
-- the other counter alone, for non-negative sizes and counters that do not overflow.
pub growth_exact :
    (opts : Options) (now : ℕ) (r : Result) (ts : TargetState)
    → r.outcome ≡ complete
    → ts.has_good ≡ true
    → r.size_bytes < 2 ^ 63
    → ts.good.size < 2 ^ 63
    → ts.bytes_added + (r.size_bytes - ts.good.size) < 2 ^ 64
    → ts.bytes_removed + (ts.good.size - r.size_bytes) < 2 ^ 64
    → ((apply_to_target opts now r ts).bytes_added ≡ ts.bytes_added + (r.size_bytes - ts.good.size))
      × ((apply_to_target opts now r ts).bytes_removed
          ≡ ts.bytes_removed + (ts.good.size - r.size_bytes))
unfolding apply_to_target
growth_exact opts now r ts done h small small' fits fits' = ground arith
