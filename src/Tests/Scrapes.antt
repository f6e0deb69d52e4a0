-- ===== src/Tests/Scrapes.antt =====
-- Examples for cmd/directory-size-exporter/main.go and internal/collector.
use directory_size_exporter.Base.{
  All, ◌≡◌, refl, inl, Bool, true, false, ◌&&◌, none, some, List, [], ◌∷◌, Str, str, str_eq,
  str_beq, ◌==◌, if◌then◌else◌, time_sub, ◌%◌, ◌^◌, ◌+◌,
}
use directory_size_exporter.Base.Dict.{lookup, insert, contains}
use directory_size_exporter.State.{
  complete, snapshot_locked, is_stale, new_target_state, count_or_zero,
}
use directory_size_exporter.State.Retention.{run, last_publishing}
use directory_size_exporter.Targets.{
  resolve, match_all, add_matches, expand, resolve_one, carry_forward, carry_one, publish,
  mark_overlaps, absent_from,
}
use directory_size_exporter.Targets.Paths.{
  has_meta, trim_space, is_empty, sort_strings, insert_sorted, str_ltb, is_under, ends_in_separator,
  has_prefix,
}
use directory_size_exporter.Schedprio.{parse_io_class}
use directory_size_exporter.Fsstat.{Capabilities}
use directory_size_exporter.Collector.Descs.{name_of, size}
use directory_size_exporter.Collector.Series.{signed, series_eq}
use directory_size_exporter.Collector.Targets.{Options, collect_target}
use directory_size_exporter.Collector.Filesystem.{
  FsInfo, Answer, answered, timed_out, Cache, entry_of, refresh,
}
use directory_size_exporter.Collector.Filesystem.Refresh.{timeouts_of, refresh_exact}
use directory_size_exporter.Collector.Scrape.{collect}
use directory_size_exporter.Scan.Cycles.{Stats}
use directory_size_exporter.Collector.Scrape.Labels.{IsLabelled, collect_labels_fit}
use directory_size_exporter.Collector.Reported.{values_of, scraped_size_exact}
use directory_size_exporter.App
use directory_size_exporter.App.{
  Application, unlocked, Event, reload_requested, targets_resolved, targets_applied, cycle_started,
  scan_started, scan_finished, cycle_finished, first_state, new_app, reload,
}
use directory_size_exporter.Tests.{day, night, scanned, strict, four_scans}
use directory_size_exporter.Tests.Resolutions.{flat_host, target_at}

abbrev pub cfg : App.Config
cfg = record {
  target_patterns = day ∷ [];
  targets = record { max = 5; retain_vanished = 1000 };
  state = strict;
  scan_io_priority = str "idle";
  scan_histogram = true;
  filesystem = true;
}

-- What the program starts with.
abbrev pub app : Application
app =
    first_state cfg
      (record {
        patterns = day ∷ [];
        opts = cfg.targets;
        vanished_at = [];
        known = (day, target_at day) ∷ [];
      })
      (record { targets = target_at day ∷ []; added = day ∷ []; removed = []; warnings = [] })

pub starts : new_app flat_host true 100 cfg ≡ inl app
unfolding new_app resolve match_all add_matches expand has_meta resolve_one trim_space is_empty
    carry_forward carry_one publish sort_strings insert_sorted str_ltb mark_overlaps is_under
    ends_in_separator has_prefix absent_from lookup insert str_beq parse_io_class contains
starts = refl

abbrev disk : FsInfo
disk = record {
  total_bytes = 1000;
  free_bytes = 400;
  avail_bytes = 300;
  total_inodes = 50;
  free_inodes = 20;
  mountpoint = str "/data";
  device = str "8:1";
  fs_type = str "xfs";
}

abbrev in_time : Str → Bool
in_time target = false

abbrev query : Str → Answer
query target = answered disk

-- A cycle, with a reload that begins in the middle of it.
abbrev pub events : List Event
events =
    cycle_started in_time query
    ∷ scan_started 200 day
    ∷ reload_requested
    ∷ scan_finished 300 (scanned complete 10)
    ∷ targets_resolved 350
    ∷ cycle_finished true false
    ∷ targets_applied
    ∷ []

abbrev everything_on : Options
everything_on = record {
  file_counts = true;
  disk_usage = true;
  growth = true;
  filesystem = true;
  dedup_hardlinks = true;
  one_filesystem = true;
  scan_histogram = true;
}

abbrev all_caps : Capabilities
all_caps = record {
  alloc_bytes = true;
  inode = true;
  fs_bytes = true;
  fs_inodes = true;
  mountpoint = true;
}

abbrev no_stats : Stats
no_stats = record { scans_skipped = 0; rate_limit_wait = 0; abandoned_workers = 0 }

scraped_size_exact_example :
    let ts = run strict four_scans new_target_state in
    values_of
      (name_of size)
      (collect_target everything_on all_caps (snapshot_locked strict day ts 500))
    ≡ (if ts.has_good && is_stale strict (time_sub 500 ts.good_at)
        then []
        else elim (last_publishing strict four_scans none) [
          | none ↦ []
          | some m ↦ signed m.size ∷ []
        ])
scraped_size_exact_example = scraped_size_exact everything_on all_caps strict day four_scans 500

-- The query of `night` hangs.
abbrev night_hangs : Str → Answer
night_hangs target = if target == night then timed_out else answered disk

abbrev counted : Cache
counted = record { by_target = []; timeouts = (night, 3) ∷ [] }

refresh_exact_example :
    (lookup night (refresh in_time night_hangs (day ∷ night ∷ []) counted).by_target
      ≡ (if contains night (day ∷ night ∷ []) then some (entry_of (night_hangs night)) else none))
    × (count_or_zero
            (lookup night (refresh in_time night_hangs (day ∷ night ∷ []) counted).timeouts)
          % 2 ^ 64
        ≡ (if contains night (day ∷ night ∷ [])
            then (count_or_zero (lookup night counted.timeouts)
                + timeouts_of night_hangs night (day ∷ night ∷ []))
              % 2 ^ 64
            else 0))
refresh_exact_example =
    refresh_exact in_time night_hangs (day ∷ night ∷ []) counted night (refl, (refl, tt))

-- A cache with a reading of `day`.
abbrev measured_cache : Cache
measured_cache = record {
  by_target = (day, record { info = disk; available = true }) ∷ [];
  timeouts = [];
}

collect_labels_fit_example : All IsLabelled (
    collect everything_on all_caps no_stats
      (some measured_cache)
      (snapshot_locked strict day (run strict four_scans new_target_state) 500 ∷ []))
collect_labels_fit_example =
    collect_labels_fit everything_on all_caps no_stats (some measured_cache)
      (snapshot_locked strict day (run strict four_scans new_target_state) 500 ∷ [])
