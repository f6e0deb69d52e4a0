-- ===== src/Tests/Scans.antt =====
-- Examples for internal/scan/target.go, errclass.go and engine.go.
use directory_size_exporter.Base.{
  if◌then◌else◌, ◌||◌, ℕ, ◌+◌, ◌%◌, ◌^◌, ◌<◌, ◌≡◌, refl, Bool, true, false, ◌||◌, some, List, [],
  ◌∷◌, Str, str_eq, str_beq, arith, length,
}
use directory_size_exporter.Base.Dict.{contains, Distinct, lookup, insert}
use directory_size_exporter.State.{apply_to_target, new_target_state}
use directory_size_exporter.State.Retention.{SameBaseline, visible}
use directory_size_exporter.Scan.ErrClass.{
  eio, Error, ErrorTally, no_errors, add_error, classify, all_error_classes, count_of,
}
use directory_size_exporter.Scan.ErrClass.Laws.{added, none_yet}
use directory_size_exporter.Scan.Target.{
  FileStat, inode_eq, no_totals, TargetScan, new_target_scan, count_file, should_count, track_inode,
  abandon,
}
use directory_size_exporter.Scan.Target.Laws.{
  count_files, singles, is_linked, hardlinks_counted_once,
}
use directory_size_exporter.Scan.Pool.{Pool}
use directory_size_exporter.Scan.Engine.{
  Config, with_defaults, Wake, walk_done, deadline_then_done, hard_timer, supervise,
}
use directory_size_exporter.Scan.Engine.Outcomes.{
  is_clean, supervise_sets_baseline, cut_short_publishes_nothing,
}
use directory_size_exporter.Tests.{day, strict, file}
use directory_size_exporter.Scan.Cycles.{
  CycleEvent, called, returned, drained, nothing_yet, history_of, note_event, IsPossible,
  run_engine, new_engine, stats, stats_exact,
}
use directory_size_exporter.Scan.Summary.{error_attributes}
use directory_size_exporter.Scan.Summary.Counts.{sum_numbers, error_attributes-total}

-- The scan of `day`, which tracks at most two inodes.
abbrev fresh_scan : TargetScan
fresh_scan = new_target_scan day 50 2

-- A file with one link, and one with two that is met twice.
abbrev some_files : List FileStat
some_files = file 7 1 100 ∷ file 8 2 30 ∷ file 8 2 30 ∷ []

abbrev io_error : Error
io_error = record { is_permission = false; is_not_exist = false; is_eof = false; errno = some eio }

hardlinks_counted_once_example :
    (((count_files true some_files (no_totals, fresh_scan)).0.files + length fresh_scan.inodes)
        % 2 ^ 64
      ≡ (0
          + singles some_files
          + length (count_files true some_files (no_totals, fresh_scan)).1.inodes)
        % 2 ^ 64)
    × (contains
          (record { dev = 1; ino = 8 })
          (count_files true some_files (no_totals, fresh_scan)).1.inodes
        ≡ (contains (record { dev = 1; ino = 8 }) fresh_scan.inodes
            || is_linked (record { dev = 1; ino = 8 }) some_files))
    × Distinct (count_files true some_files (no_totals, fresh_scan)).1.inodes
unfolding count_files count_file should_count track_inode new_target_scan contains
hardlinks_counted_once_example =
    hardlinks_counted_once some_files (no_totals, fresh_scan) (record { dev = 1; ino = 8 }) refl tt

-- A pool that shares what passes one directory, with room for four.
abbrev small_pool : Pool ℕ
small_pool = record { deque = 1 ∷ []; limit = 4; share_over = 1; closed = false }

-- The stack of a worker.
abbrev two_refs : List ℕ
two_refs = 2 ∷ 3 ∷ []

-- No setting but the rate limit.
abbrev config : Config
config = record {
  concurrency = 0;
  batch_size = 0;
  share_threshold = 0;
  queue_limit = 0;
  rate_limited = true;
  rate_limit_burst = 10;
  scan_timeout = 0;
  hard_timeout = 0;
  worker_drain_timeout = 0;
  one_filesystem = false;
  dedup_hardlinks = true;
  max_tracked_inodes = 0;
  heartbeat_after = 0;
  heartbeat_every = 0;
}

abbrev counted_scan : TargetScan
counted_scan = record fresh_scan { size = 700; alloc = 4096 }

supervise_sets_baseline_example :
    let after =
      apply_to_target strict 95
        (supervise deadline_then_done false false 90 counted_scan)
        new_target_state in
    let clean = is_clean deadline_then_done false false counted_scan in
    (after.has_good ≡ (clean || new_target_state.has_good))
    × (after.good.size ≡ (if clean then counted_scan.size else new_target_state.good.size))
    × (after.good.alloc ≡ (if clean then counted_scan.alloc else new_target_state.good.alloc))
    × (after.good_at ≡ (if clean then 95 else new_target_state.good_at))
supervise_sets_baseline_example =
    supervise_sets_baseline strict deadline_then_done false false 90 95 counted_scan
      new_target_state

cut_short_publishes_nothing_example :
    let after =
      apply_to_target strict 90 (supervise hard_timer false false 90 fresh_scan) new_target_state in
    SameBaseline after new_target_state × (visible after ≡ visible new_target_state)
unfolding abandon
cut_short_publishes_nothing_example =
    cut_short_publishes_nothing strict hard_timer false false 90 fresh_scan new_target_state refl

-- A walk that finds nothing.
abbrev empty_walk : TargetScan → TargetScan × Wake × Bool × Bool × ℕ
empty_walk t = (t, walk_done, false, false, 60)

-- A cycle with its two workers, a call that is refused, and a drain that leaves one worker out.
abbrev cycle_events : List CycleEvent
cycle_events = called ∷ called ∷ returned ∷ drained ∷ []

stats_exact_example :
    let e = run_engine cycle_events (new_engine config) in
    let y = history_of 2 cycle_events nothing_yet in
    (e.scanning ≡ y.busy)
    × ((stats e).scans_skipped % 2 ^ 64 ≡ y.refused % 2 ^ 64)
    × ((stats e).abandoned_workers % 2 ^ 64 ≡ y.leaked % 2 ^ 64)
unfolding with_defaults IsPossible note_event
stats_exact_example = stats_exact config cycle_events (omega arith)

-- Two errors of a device.
abbrev two_errors : ErrorTally
two_errors = add_error (some io_error) (add_error (some io_error) no_errors)

small_counts : (class : Str) → count_of class two_errors.counts < 2 ^ 63
unfolding add_error classify lookup insert str_beq
small_counts class = ground arith

error_attributes-total_example :
    sum_numbers (error_attributes two_errors.counts all_error_classes) % 2 ^ 64 ≡ 2
unfolding add_error str_beq
error_attributes-total_example =
    error_attributes-total two_errors (added (some io_error) (added (some io_error) none_yet))
      small_counts
