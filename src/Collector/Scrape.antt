-- ===== src/Collector/Scrape.antt =====
-- `Collect` and `Recorder` (internal/collector/collector.go).
pub mod Unique
pub mod Labels
use directory_size_exporter.Base.{
  ℕ, ◌≡◌, ◌≢◌, refl, Bool, true, false, not, ◌&&◌, ◌||◌, Option, none, some, List, [], ◌∷◌, ◌++◌,
  map, Str, str, str_eq, str_beq, str_beq_iff, All, All-append, if◌then◌else◌, ◌∙◌, ap, arith,
  length, ◌==◌, eq_refl,
}
use directory_size_exporter.Base.Dict.{
  lookup, contains, Distinct, Distinct-append, is_distinct, is_distinct_sound,
}
use directory_size_exporter.State.{Snapshot}
use directory_size_exporter.Fsstat.{Capability, Capabilities, has_cap, label_of, all_capabilities}
use directory_size_exporter.Collector.Filesystem.{
  FsEntry, Cache, collect_filesystems, collect_entries,
}
use directory_size_exporter.Collector.Descs.{
  Desc, name_of, engine_names, fs_names, entry_names, scans_skipped, abandoned_workers,
  rate_limit_wait, capability, targets_resolved,
}
use directory_size_exporter.Collector.Series.{
  Value, flag, count, signed, seconds, gauge, counter, Sample, Series, series_eq, series_of,
  strs_beq, is_for, starts_with, when,
}
use directory_size_exporter.Collector.Targets.{
  Options, collect_target, collect_target-Distinct, collect_target-is_for,
}
use directory_size_exporter.Scan.Cycles.{Stats}

module _ (opts : Options) (caps : Capabilities) where
  -- The loop over the snapshots.
  unfoldable pub collect_targets : List Snapshot → List Sample
  collect_targets [] = []
  collect_targets (snap ∷ snaps) = collect_target opts caps snap ++ collect_targets snaps

  -- The loop over the capabilities.
  abbrev pub capability_samples : List Capability → List Sample
  capability_samples [] = []
  capability_samples (cap ∷ caps') =
      record {
        kind = gauge;
        desc = capability;
        value = flag (has_cap cap caps);
        labels = label_of cap ∷ [];
      }
      ∷ capability_samples caps'

  -- `collectEngine`
  unfoldable pub collect_engine : Stats → ℕ → List Sample
  collect_engine stats target_count =
      record {
        kind = counter;
        desc = scans_skipped;
        value = count stats.scans_skipped;
        labels = [];
      }
      ∷ record {
        kind = gauge;
        desc = abandoned_workers;
        value = signed stats.abandoned_workers;
        labels = [];
      }
      ∷ record {
        kind = counter;
        desc = rate_limit_wait;
        value = seconds stats.rate_limit_wait;
        labels = [];
      }
      ∷ record { kind = gauge; desc = targets_resolved; value = count target_count; labels = [] }
      ∷ capability_samples all_capabilities

  abbrev pub filesystem_samples : Option Cache → List Sample
  filesystem_samples none = []
  filesystem_samples (some cache) = when opts.filesystem (collect_filesystems caps cache)

  -- `Collect`, less the histogram, from the snapshots of the store.
  unfoldable pub collect : Stats → Option Cache → List Snapshot → List Sample
  unfolding collect_targets collect_engine
  collect stats cache snaps =
      collect_targets snaps ++ (collect_engine stats (length snaps) ++ filesystem_samples cache)
