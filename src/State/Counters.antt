-- ===== src/State/Counters.antt =====
-- The cumulative counters of internal/state/store.go, and what a snapshot shows or withholds.
use directory_size_exporter.Base.{
  ℕ, ◌+◌, ◌%◌, ◌^◌, ◌≡◌, refl, false, not, ◌&&◌, List, [], ◌∷◌, Str, str_eq, arith, if◌then◌else◌,
  ◌==◌, str_beq_iff, Eq, add64,
}
use directory_size_exporter.Base.Dict.{
  lookup, insert, keys, contains, has, Distinct, lookup-insert, contains-keys, Distinct-insert,
}
use directory_size_exporter.State.{
  Outcome, cancelled, outcome_eq, outcome_beq_iff, Result, Options, TargetState, Snapshot,
  new_target_state, apply_to_target, count_or_zero, add_errors, copy_into, snapshot_locked,
}
use directory_size_exporter.State.Retention.{run}

-- How many results have the outcome.
unfoldable pub occurrences : Outcome → List (ℕ × Result) → ℕ
occurrences o [] = 0
occurrences o ((now, r) ∷ rs) = (if r.outcome == o then 1 else 0) + occurrences o rs

-- The errors of class `c` in one result, and in those results of a run that are evidence.
unfoldable pub errors_in : Str → List (Str × ℕ) → ℕ
errors_in c [] = 0
errors_in c ((class, n) ∷ errors) = (if class == c then n else 0) + errors_in c errors

unfoldable pub errors_of : Str → List (ℕ × Result) → ℕ
errors_of c [] = 0
errors_of c ((now, r) ∷ rs) =
    (if r.outcome == cancelled then 0 else errors_in c r.errors) + errors_of c rs

scans-apply_to_target :
    (opts : Options) (now : ℕ) (r : Result) (ts : TargetState) (o : Outcome)
    → count_or_zero (lookup o (apply_to_target opts now r ts).scans_total) % 2 ^ 64
      ≡ (count_or_zero (lookup o ts.scans_total) + (if r.outcome == o then 1 else 0)) % 2 ^ 64
unfolding apply_to_target
scans-apply_to_target opts now r ts o = ground (
  arith,
  outcome_beq_iff r.outcome o,
  lookup-insert r.outcome o (add64 (count_or_zero (lookup r.outcome ts.scans_total)) 1)
      ts.scans_total,
)

-- Every finished scan is counted once under its outcome, modulo 2 ^ 64, a cancelled one too.
pub run-scans_total :
    (opts : Options) (rs : List (ℕ × Result)) (ts : TargetState) (o : Outcome)
    → count_or_zero (lookup o (run opts rs ts).scans_total) % 2 ^ 64
      ≡ (count_or_zero (lookup o ts.scans_total) + occurrences o rs) % 2 ^ 64
unfolding run occurrences
run-scans_total opts [] ts o = omega arith
run-scans_total opts ((now, r) ∷ rs) ts o = omega (
  arith,
  scans-apply_to_target opts now r ts o,
  run-scans_total opts rs (apply_to_target opts now r ts) o,
)

lookup-add_errors :
    (errors total : List (Str × ℕ)) (c : Str)
    → count_or_zero (lookup c (add_errors errors total)) % 2 ^ 64
      ≡ (count_or_zero (lookup c total) + errors_in c errors) % 2 ^ 64
unfolding add_errors errors_in
lookup-add_errors [] total c = omega arith
lookup-add_errors ((class, n) ∷ errors) total c =
    let sum = add64 (count_or_zero (lookup class total)) n in
    ground (
      arith,
      lookup-add_errors errors (insert class sum total) c,
      lookup-insert class c sum total,
      str_beq_iff class c,
    )

errors-apply_to_target :
    (opts : Options) (now : ℕ) (r : Result) (ts : TargetState) (c : Str)
    → count_or_zero (lookup c (apply_to_target opts now r ts).errors_total) % 2 ^ 64
      ≡ (count_or_zero (lookup c ts.errors_total)
          + (if r.outcome == cancelled then 0 else errors_in c r.errors))
        % 2 ^ 64
unfolding apply_to_target
errors-apply_to_target opts now r ts c =
    ground (arith, lookup-add_errors r.errors ts.errors_total c)

-- The total of an error class is the sum of that class over the finished scans, modulo 2 ^ 64,
-- where a cancelled scan adds nothing.
pub run-errors_total :
    (opts : Options) (rs : List (ℕ × Result)) (ts : TargetState) (c : Str)
    → count_or_zero (lookup c (run opts rs ts).errors_total) % 2 ^ 64
      ≡ (count_or_zero (lookup c ts.errors_total) + errors_of c rs) % 2 ^ 64
unfolding run errors_of
run-errors_total opts [] ts c = omega arith
run-errors_total opts ((now, r) ∷ rs) ts c = omega (
  arith,
  errors-apply_to_target opts now r ts c,
  run-errors_total opts rs (apply_to_target opts now r ts) c,
)

-- A copy of a map whose keys are distinct has the same entries.
lookup-copy_into {ℓ} :
    {K : Type ℓ} ⦃e : Eq K⦄ (source out : List (K × ℕ)) (k : K)
    → Distinct (keys source)
    → lookup k (copy_into source out) ≡ (if has k source then lookup k source else lookup k out)
unfolding copy_into lookup contains
lookup-copy_into ⦃e⦄ [] out k d = refl
lookup-copy_into ⦃e⦄ ((j, v) ∷ source) out k d = ground (
  arith,
  lookup-copy_into source (insert j v out) k d.1,
  lookup-insert j k v out,
  contains-keys j source,
  e.beq_iff j k,
)

scans_total-apply_to_target :
    (opts : Options) (now : ℕ) (r : Result) (ts : TargetState)
    → (apply_to_target opts now r ts).scans_total
      ≡ insert r.outcome (add64 (count_or_zero (lookup r.outcome ts.scans_total)) 1) ts.scans_total
unfolding apply_to_target
scans_total-apply_to_target opts now r ts = ground arith

Distinct-scans_total :
    (opts : Options) (rs : List (ℕ × Result)) (ts : TargetState)
    → Distinct (keys ts.scans_total)
    → Distinct (keys (run opts rs ts).scans_total)
unfolding run
Distinct-scans_total opts [] ts d = d
Distinct-scans_total opts ((now, r) ∷ rs) ts d =
    Distinct-scans_total opts rs (apply_to_target opts now r ts)
      (rw scans_total-apply_to_target (Distinct-insert r.outcome _ ts.scans_total d))

scans_total-snapshot_locked :
    (opts : Options) (target : Str) (ts : TargetState) (now : ℕ)
    → (snapshot_locked opts target ts now).scans_total ≡ copy_into ts.scans_total []
unfolding snapshot_locked
scans_total-snapshot_locked opts target ts now = ground arith

lookup-copy {ℓ} :
    {K : Type ℓ} ⦃e : Eq K⦄ (source : List (K × ℕ)) (k : K)
    → Distinct (keys source)
    → lookup k (copy_into source []) ≡ lookup k source
unfolding lookup
lookup-copy source k d = ground (arith, lookup-copy_into source [] k d)

-- The copy of the outcome counters in a snapshot of a target, taken after any run of finished
-- scans since the target was first tracked, counts the results of each outcome, modulo 2 ^ 64.
pub snapshot-scans_total :
    (opts : Options) (target : Str) (rs : List (ℕ × Result)) (now : ℕ) (o : Outcome)
    → count_or_zero
          (lookup o (snapshot_locked opts target (run opts rs new_target_state) now).scans_total)
        % 2 ^ 64
      ≡ occurrences o rs % 2 ^ 64
unfolding lookup
snapshot-scans_total opts target rs now o = rw scans_total-snapshot_locked (
    rw (lookup-copy _ o (Distinct-scans_total opts rs new_target_state tt))
      (omega (arith, run-scans_total opts rs new_target_state o)))

-- The fields of a snapshot that hold a measurement are zero, and there is no delta.
abbrev pub IsWithheld : Snapshot → Type 0
IsWithheld snap =
    (snap.size_bytes ≡ 0)
    × (snap.alloc_bytes ≡ 0)
    × (snap.files ≡ 0)
    × (snap.directories ≡ 0)
    × (snap.hardlinked_files ≡ 0)
    × (snap.dedup_saved_bytes ≡ 0)
    × (snap.hardlink_tracking_exhausted ≡ false)
    × (snap.has_delta ≡ false)
    × (snap.delta_bytes ≡ 0)

-- In a snapshot without a measurement every field of a measurement is zero and there is no delta,
-- if a target that has completed a scan has one published.
pub snapshot_withholds :
    (opts : Options) (target : Str) (ts : TargetState) (now : ℕ)
    → (ts.has_good && not ts.has_published) ≡ false
    → (snapshot_locked opts target ts now).has_good ≡ false
    → IsWithheld (snapshot_locked opts target ts now)
unfolding snapshot_locked
snapshot_withholds opts target ts now h none_shown = ground arith
