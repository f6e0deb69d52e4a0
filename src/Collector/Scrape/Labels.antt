-- ===== src/Collector/Scrape/Labels.antt =====
-- The label values of a scrape (internal/collector/collector.go, filesystem.go) fit the descriptors of
-- descs.go: `MustNewConstMetric` panics on a metric whose values they do not fit.
use directory_size_exporter.Base.{
  ℕ, ◌≡◌, refl, Bool, true, Option, none, some, List, [], ◌∷◌, ◌++◌, All, All-append, Str, arith,
  length, every, every_sound, nat_beq,
}
use directory_size_exporter.State.{Snapshot}
use directory_size_exporter.Fsstat.{Capabilities}
use directory_size_exporter.Collector.Descs.{labels_of}
use directory_size_exporter.Collector.Series.{Sample, All-weaken, All-Sub, Sub-when, Sub-self}
use directory_size_exporter.Collector.Targets.{
  Options, collect_target, collect_target-Sub, everything,
}
use directory_size_exporter.Collector.Filesystem.{
  FsEntry, Cache, entry_samples, now_seen, collect_entries, collect_filesystems,
}
use directory_size_exporter.Collector.Filesystem.Once.{entry_all, entry_samples-Sub}
use directory_size_exporter.Collector.Scrape.{
  collect_targets, collect_engine, filesystem_samples, collect,
}
use directory_size_exporter.Scan.Cycles.{Stats}

-- One value for each label of the descriptor.
abbrev pub IsLabelled : Sample → Type 0
IsLabelled s = length s.labels ≡ length (labels_of s.desc)

abbrev is_labelled : Sample → Bool
is_labelled s = nat_beq (length s.labels) (length (labels_of s.desc))

is_labelled_lem : (s : Sample) → is_labelled s ≡ true → IsLabelled s
is_labelled_lem s h = ground (arith, h)

All-IsLabelled : (samples : List Sample) → every is_labelled samples ≡ true → All IsLabelled samples
All-IsLabelled samples h =
    All-weaken (λ s. is_labelled s ≡ true) IsLabelled samples is_labelled_lem
      (every_sound is_labelled samples h)

module _ (opts : Options) (caps : Capabilities) where
  target_labels : (snap : Snapshot) → All IsLabelled (collect_target opts caps snap)
  target_labels snap =
      All-Sub IsLabelled (collect_target-Sub opts caps snap)
        (All-IsLabelled (everything opts caps snap) refl)

  targets_labels : (snaps : List Snapshot) → All IsLabelled (collect_targets opts caps snaps)
  unfolding collect_targets
  targets_labels [] = tt
  targets_labels (snap ∷ snaps) =
      All-append IsLabelled (collect_target opts caps snap) (collect_targets opts caps snaps)
        (target_labels snap) (targets_labels snaps)

  engine_labels : (stats : Stats) (n : ℕ) → All IsLabelled (collect_engine opts caps stats n)
  unfolding collect_engine
  engine_labels stats n = All-IsLabelled (collect_engine opts caps stats n) refl

  entries_labels :
      (timeouts : List (Str × ℕ)) (seen : List (List Str)) (entries : List (Str × FsEntry))
      → All IsLabelled (collect_entries caps timeouts seen entries)
  unfolding collect_entries
  entries_labels timeouts seen [] = tt
  entries_labels timeouts seen ((target, entry) ∷ entries) =
      All-append IsLabelled (entry_samples caps timeouts seen target entry)
        (collect_entries caps timeouts (now_seen entry seen) entries)
        (All-Sub IsLabelled (entry_samples-Sub caps timeouts seen target entry)
          (All-IsLabelled (entry_all caps timeouts seen target entry) refl))
        (entries_labels timeouts (now_seen entry seen) entries)

  filesystem_labels : (cache : Option Cache) → All IsLabelled (filesystem_samples opts caps cache)
  filesystem_labels none = tt
  filesystem_labels (some cache) =
      All-Sub IsLabelled (Sub-when opts.filesystem (Sub-self (collect_filesystems caps cache)))
        (entries_labels cache.timeouts [] cache.by_target)

  -- Every sample of a scrape, the histogram of durations aside, has one value for each label of its
  -- descriptor.
  pub collect_labels_fit :
      (stats : Stats) (cache : Option Cache) (snaps : List Snapshot)
      → All IsLabelled (collect opts caps stats cache snaps)
  unfolding collect
  collect_labels_fit stats cache snaps =
      All-append IsLabelled (collect_targets opts caps snaps)
        (collect_engine opts caps stats (length snaps) ++ filesystem_samples opts caps cache)
        (targets_labels snaps)
        (All-append IsLabelled (collect_engine opts caps stats (length snaps))
          (filesystem_samples opts caps cache) (engine_labels stats (length snaps))
          (filesystem_labels cache))
