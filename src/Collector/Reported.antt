-- ===== src/Collector/Reported.antt =====
-- From the finished scans of a target (internal/state/store.go) to the size that a scrape reports for it
-- (internal/collector/collector.go).
use directory_size_exporter.Base.{
  ℕ, ◌≡◌, refl, Bool, true, false, Bool-cases, ◌&&◌, Option, none, some, List, [], ◌∷◌, ◌++◌, Str,
  str_eq, str_beq, ◌==◌, arith, if◌then◌else◌, ◌∙◌, ap, ltb, time_sub,
}
use directory_size_exporter.State
use directory_size_exporter.State.{
  Result, Measurement, TargetState, Snapshot, all_outcomes, new_target_state, apply_to_target,
  snapshot_locked, is_stale,
}
use directory_size_exporter.State.Retention.{run, visible, last_publishing, visible-run}
use directory_size_exporter.State.Tracking.{
  IsConsistent, new_target_state-IsConsistent, apply_to_target-IsConsistent,
}
use directory_size_exporter.Fsstat.{Capabilities}
use directory_size_exporter.Collector.Descs.{name_of, size}
use directory_size_exporter.Collector.Series.{Value, signed, Sample, when}
use directory_size_exporter.Collector.Targets.{
  Options, collect_target, measured_samples, status_samples, skipped_samples, attempt_samples,
  freshness_samples, history_samples, disk_samples, file_samples, dedup_samples, delta_samples,
}

-- The values that are sent for a metric.
unfoldable pub values_of : Str → List Sample → List Value
values_of name [] = []
values_of name (s ∷ samples) =
    let rest = values_of name samples in if name_of s.desc == name then s.value ∷ rest else rest

values_of-append :
    (name : Str) (xs ys : List Sample)
    → values_of name (xs ++ ys) ≡ values_of name xs ++ values_of name ys
unfolding values_of
values_of-append name [] ys = refl
values_of-append name (x ∷ xs) ys = ground (arith, values_of-append name xs ys)

-- Samples of other metrics in front change nothing, whether or not a test lets them through.
past :
    (name : Str) (b : Bool) (xs ys : List Sample)
    → values_of name xs ≡ []
    → values_of name (when b xs ++ ys) ≡ values_of name ys
past name true xs ys h = values_of-append name xs ys ∙ ap (λ l. l ++ values_of name ys) h
past name false xs ys h = refl

module _ (opts : Options) (caps : Capabilities) (snap : Snapshot) where
  measured :
      values_of (name_of size) (measured_samples opts caps snap) ≡ signed snap.size_bytes ∷ []
  unfolding values_of str_beq measured_samples
  measured =
      let third = when (opts.growth && snap.has_delta) (delta_samples opts caps snap) in
      let second = when opts.dedup_hardlinks (dedup_samples opts caps snap) ++ third in
      let first = when opts.file_counts (file_samples opts caps snap) ++ second in
      ap (◌∷◌ (signed snap.size_bytes)) (
        past (name_of size) (opts.disk_usage && caps.alloc_bytes) (disk_samples opts caps snap)
          first refl
        ∙ past (name_of size) opts.file_counts (file_samples opts caps snap) second refl
        ∙ past (name_of size) opts.dedup_hardlinks (dedup_samples opts caps snap) third refl
        ∙ last (opts.growth && snap.has_delta))
    where
      last : (b : Bool) → values_of (name_of size) (when b (delta_samples opts caps snap)) ≡ []
      last true = refl
      last false = refl

  -- The size is sent exactly for a snapshot with a measurement.
  sizes :
      values_of (name_of size) (collect_target opts caps snap)
      ≡ when snap.has_good (signed snap.size_bytes ∷ [])
  unfolding values_of str_beq collect_target
  sizes =
      let dated = ltb 0 snap.last_good_timestamp in
      let fifth = when snap.has_good (measured_samples opts caps snap) in
      let fourth = when (opts.growth && dated) (history_samples opts caps snap) ++ fifth in
      let third = when dated (freshness_samples opts caps snap) ++ fourth in
      let second = when snap.has_attempt (attempt_samples opts caps snap) ++ third in
      let first = when opts.one_filesystem (skipped_samples opts caps snap) ++ second in
      past (name_of size) true (status_samples opts caps snap) first refl
      ∙ past (name_of size) opts.one_filesystem (skipped_samples opts caps snap) second refl
      ∙ past (name_of size) snap.has_attempt (attempt_samples opts caps snap) third refl
      ∙ past (name_of size) dated (freshness_samples opts caps snap) fourth refl
      ∙ past (name_of size) (opts.growth && dated) (history_samples opts caps snap) fifth refl
      ∙ last snap.has_good
    where
      last :
          (b : Bool)
          → values_of (name_of size) (when b (measured_samples opts caps snap))
            ≡ when b (signed snap.size_bytes ∷ [])
      last true = measured
      last false = refl

run-IsConsistent :
    (opts : State.Options) (rs : List (ℕ × Result)) (ts : TargetState)
    → IsConsistent opts ts
    → IsConsistent opts (run opts rs ts)
unfolding run
run-IsConsistent opts [] ts h = h
run-IsConsistent opts ((now, r) ∷ rs) ts h =
    run-IsConsistent opts rs (apply_to_target opts now r ts)
      (apply_to_target-IsConsistent opts now r ts h)

-- What a snapshot shows of a measurement.
shown_size :
    (opts : State.Options) (target : Str) (ts : TargetState) (now : ℕ)
    → IsConsistent opts ts
    → let snap = snapshot_locked opts target ts now in
      when snap.has_good (signed snap.size_bytes ∷ []) ≡ (
        if ts.has_good && is_stale opts (time_sub now ts.good_at)
        then []
        else elim (visible ts) [ none ↦ [] | some m ↦ signed m.size ∷ [] ])
unfolding snapshot_locked
shown_size opts target ts now h = ground (
  arith,
  h.good_published,
  Bool-cases ts.has_good,
  Bool-cases ts.has_published,
  Bool-cases ts.has_previous_good,
  Bool-cases (is_stale opts (time_sub now ts.good_at)),
)

-- After any finished scans of a target since it was taken up, a scrape sends the size of the last scan
-- that was complete, or partial where partial results are published; it sends none if there is no such
-- scan, or if the last complete scan is older than the threshold for staleness. That age is the age of
-- the last complete scan, whatever is sent: a partial result is sent at any age as long as no scan was
-- complete, and is not sent, however new it is, once the last complete scan is too old.
pub scraped_size_exact :
    (opts : Options) (caps : Capabilities) (retention : State.Options) (target : Str)
    (rs : List (ℕ × Result)) (now : ℕ)
    → let ts = run retention rs new_target_state in
      values_of (name_of size) (collect_target opts caps (snapshot_locked retention target ts now))
      ≡ (if ts.has_good && is_stale retention (time_sub now ts.good_at)
          then []
          else elim (last_publishing retention rs none) [ none ↦ [] | some m ↦ signed m.size ∷ [] ])
scraped_size_exact opts caps retention target rs now =
    let ts = run retention rs new_target_state in
    sizes opts caps (snapshot_locked retention target ts now)
    ∙ shown_size retention target ts now
        (run-IsConsistent retention rs new_target_state (new_target_state-IsConsistent retention))
    ∙ ap
        (λ (o : Option Measurement).
          if ts.has_good && is_stale retention (time_sub now ts.good_at)
          then []
          else elim o [ none ↦ [] | some m ↦ signed m.size ∷ [] ])
        (visible-run retention rs new_target_state)
