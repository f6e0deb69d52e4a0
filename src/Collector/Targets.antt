-- ===== src/Collector/Targets.antt =====
-- `collectTarget` (internal/collector/collector.go): the samples of one target, as a list in the order
-- in which they are sent.
use directory_size_exporter.Base.{
  every_sound, ◌≡◌, refl, Bool, true, not, ◌&&◌, ◌||◌, List, [], ◌∷◌, ◌++◌, map, Str, str_eq,
  str_beq, ltb, All,
}
use directory_size_exporter.Base.Dict.{lookup, contains, Distinct, is_distinct, is_distinct_sound}
use directory_size_exporter.State.{
  Outcome, outcome_eq, all_outcomes, outcome_name, Snapshot, count_or_zero,
}
use directory_size_exporter.Scan.ErrClass.{all_error_classes}
use directory_size_exporter.Fsstat.{Capabilities}
use directory_size_exporter.Collector.Descs.{
  Desc, size, disk_usage, files, dirs, hardlinked, dedup_saved, dedup_broke, delta, delta_interval,
  bytes_added, bytes_removed, success, partial, present, last_good_time, last_attempt, scan_age,
  in_progress, current_scan, last_duration, scans_total, last_errors, errors_total, vanished_total,
  entries_total, stat_calls_total, dirs_read_total, skipped_xdev, engine_names, fs_names,
  entry_names,
}
use directory_size_exporter.Collector.Series.{
  Value, flag, count, signed, seconds, gauge, counter, Sample, Series, series_eq, series_of,
  strs_beq, when, Sub, keep, Sub-self, Sub-append, Sub-when, Sub-map, All-Sub, Distinct-Sub,
  Distinct-for_target, is_for, All-is_for,
}

-- `Options`
pub record Options : Type 0 where
  pub file_counts : Bool
  pub disk_usage : Bool
  pub growth : Bool
  pub filesystem : Bool
  pub dedup_hardlinks : Bool
  pub one_filesystem : Bool
  pub scan_histogram : Bool

-- No metric of the engine or of the cache of filesystems.
abbrev pub is_own_name : Str → Bool
is_own_name name =
    not (contains name engine_names) && not (contains name fs_names || contains name entry_names)

abbrev tail : List Str → List Str
tail [] = []
tail (_ ∷ labels) = labels

-- A series without its first label value.
abbrev strip : Series → Series
strip k = record { name = k.name; labels = tail k.labels }

module _ (opts : Options) (caps : Capabilities) (snap : Snapshot) where
  abbrev target_gauge : Desc → Value → Sample
  target_gauge d v = record { kind = gauge; desc = d; value = v; labels = snap.target ∷ [] }

  abbrev target_counter : Desc → Value → Sample
  target_counter d v = record { kind = counter; desc = d; value = v; labels = snap.target ∷ [] }

  -- The loop over the outcomes.
  abbrev pub outcome_samples : List Outcome → List Sample
  outcome_samples [] = []
  outcome_samples (o ∷ os) =
      record {
        kind = counter;
        desc = scans_total;
        value = count (count_or_zero (lookup o snap.scans_total));
        labels = snap.target ∷ outcome_name o ∷ [];
      }
      ∷ outcome_samples os

  -- The loop over the classes of errors.
  abbrev pub class_samples : List Str → List Sample
  class_samples [] = []
  class_samples (class ∷ classes) =
      record {
        kind = gauge;
        desc = last_errors;
        value = signed (count_or_zero (lookup class snap.last_errors));
        labels = snap.target ∷ class ∷ [];
      }
      ∷ record {
        kind = counter;
        desc = errors_total;
        value = count (count_or_zero (lookup class snap.errors_total));
        labels = snap.target ∷ class ∷ [];
      }
      ∷ class_samples classes

  -- What is sent at every scrape.
  abbrev pub status_samples : List Sample
  status_samples =
      target_gauge success (flag snap.success)
        ∷ target_gauge partial (flag snap.partial)
        ∷ target_gauge present (flag snap.present)
        ∷ target_gauge in_progress (flag snap.in_progress)
        ∷ target_gauge current_scan (seconds snap.current_scan_duration_seconds)
        ∷ outcome_samples all_outcomes
      ++ class_samples all_error_classes
      ++ target_counter vanished_total (count snap.vanished_total)
        ∷ target_counter entries_total (count snap.entries_total)
        ∷ target_counter stat_calls_total (count snap.stat_calls_total)
        ∷ target_counter dirs_read_total (count snap.dirs_read_total)
        ∷ []

  abbrev pub skipped_samples : List Sample
  skipped_samples = target_counter skipped_xdev (count snap.skipped_other_filesystem_total) ∷ []

  abbrev pub attempt_samples : List Sample
  attempt_samples =
      target_gauge last_attempt (count snap.last_attempt_timestamp)
      ∷ target_gauge last_duration (seconds snap.last_scan_duration_seconds)
      ∷ []

  abbrev pub freshness_samples : List Sample
  freshness_samples =
      target_gauge last_good_time (count snap.last_good_timestamp)
      ∷ target_gauge scan_age (seconds snap.scan_age_seconds)
      ∷ []

  abbrev pub history_samples : List Sample
  history_samples =
      target_counter bytes_added (count snap.bytes_added_total)
      ∷ target_counter bytes_removed (count snap.bytes_removed_total)
      ∷ []

  abbrev pub disk_samples : List Sample
  disk_samples = target_gauge disk_usage (signed snap.alloc_bytes) ∷ []

  abbrev pub file_samples : List Sample
  file_samples =
      target_gauge files (signed snap.files) ∷ target_gauge dirs (signed snap.directories) ∷ []

  abbrev pub dedup_samples : List Sample
  dedup_samples =
      target_gauge hardlinked (signed snap.hardlinked_files)
      ∷ target_gauge dedup_saved (signed snap.dedup_saved_bytes)
      ∷ target_gauge dedup_broke (flag snap.hardlink_tracking_exhausted)
      ∷ []

  abbrev pub delta_samples : List Sample
  delta_samples =
      target_gauge delta (signed snap.delta_bytes)
      ∷ target_gauge delta_interval (seconds snap.delta_interval_seconds)
      ∷ []

  -- After the early return for a target without a measurement.
  unfoldable pub measured_samples : List Sample
  measured_samples =
      target_gauge size (signed snap.size_bytes)
        ∷ when (opts.disk_usage && caps.alloc_bytes) disk_samples
      ++ (when opts.file_counts file_samples
          ++ (when opts.dedup_hardlinks dedup_samples
              ++ when (opts.growth && snap.has_delta) delta_samples))

  unfoldable pub collect_target : List Sample
  unfolding measured_samples
  collect_target =
      status_samples
      ++ (when opts.one_filesystem skipped_samples
          ++ (when snap.has_attempt attempt_samples
              ++ (when (ltb 0 snap.last_good_timestamp) freshness_samples
                  ++ (when (opts.growth && ltb 0 snap.last_good_timestamp) history_samples
                      ++ when snap.has_good measured_samples))))

  -- All the samples that a target can have.
  abbrev pub everything : List Sample
  everything =
      status_samples
      ++ (skipped_samples
          ++ (attempt_samples
              ++ (freshness_samples
                  ++ (history_samples
                      ++ (target_gauge size (signed snap.size_bytes) ∷ disk_samples
                          ++ (file_samples ++ (dedup_samples ++ delta_samples)))))))

  pub collect_target-Sub : Sub collect_target everything
  unfolding collect_target
  collect_target-Sub = Sub-append (Sub-self status_samples) (
      Sub-append (Sub-when opts.one_filesystem (Sub-self skipped_samples)) (
        Sub-append (Sub-when snap.has_attempt (Sub-self attempt_samples)) (
          Sub-append (Sub-when (ltb 0 snap.last_good_timestamp) (Sub-self freshness_samples)) (
            Sub-append
              (Sub-when (opts.growth && ltb 0 snap.last_good_timestamp) (Sub-self history_samples))
              (Sub-when snap.has_good (
                keep _ (
                  Sub-append
                    (Sub-when (opts.disk_usage && caps.alloc_bytes) (Sub-self disk_samples))
                    (Sub-append (Sub-when opts.file_counts (Sub-self file_samples)) (
                      Sub-append (Sub-when opts.dedup_hardlinks (Sub-self dedup_samples))
                        (Sub-when (opts.growth && snap.has_delta) (Sub-self delta_samples)))))))))))

  -- The series of all of them, without the target.
  abbrev local_series : List Series
  local_series = map strip (map series_of everything)

  local-Distinct : Distinct local_series
  unfolding contains str_beq strs_beq is_distinct
  local-Distinct = is_distinct_sound local_series refl

  -- The series of one target are distinct, and bear its path.
  pub collect_target-Distinct : Distinct (map series_of collect_target)
  collect_target-Distinct =
      Distinct-Sub (Sub-map series_of collect_target-Sub)
        (Distinct-for_target snap.target local_series local-Distinct)

  pub collect_target-is_for : All (λ k. is_for snap.target k ≡ true) (map series_of collect_target)
  collect_target-is_for =
      All-Sub (λ k. is_for snap.target k ≡ true) (Sub-map series_of collect_target-Sub)
        (All-is_for snap.target local_series)

  -- They are neither of the engine nor of the cache.
  pub collect_target-named : All (λ k. is_own_name k.name ≡ true) (map series_of collect_target)
  unfolding contains str_beq
  collect_target-named =
      All-Sub (λ k. is_own_name k.name ≡ true) (Sub-map series_of collect_target-Sub)
        (every_sound (λ k. is_own_name k.name) (map series_of everything) refl)
