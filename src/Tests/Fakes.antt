-- ===== src/Tests/Fakes.antt =====
-- The filesystem in memory of internal/fsstat/fake.go, and the walks of it.
use directory_size_exporter.Base.{
  ℕ, ◌<◌, ◌≡◌, ◌⊎◌, refl, ltb, true, false, none, some, List, [], ◌∷◌, Str, str, str_eq, str_beq,
  add64, length, arith,
}
use directory_size_exporter.Base.Dict.{lookup, insert, contains}
use directory_size_exporter.Collector.Filesystem.{no_info}
use directory_size_exporter.Fsstat.Linux.{parent_of}
use directory_size_exporter.Fsstat.System.{linux_caps}
use directory_size_exporter.Fsstat.Fake.{
  FakeNode, FakeFs, FakeDir, plain_node, dir_stat, new_fake, list_child, link_up, add_node_locked,
  add_file, add_file_stat, alloc_of, add_synthetic_files, set_fs_info,
}
use directory_size_exporter.Fsstat.Fake.Paths.{
  clean, path_clean, replace_separators, base_of, path_join,
}
use directory_size_exporter.Fsstat.Fake.Handles.{open_dir, open_node, status_of, stat_fs}
use directory_size_exporter.Fsstat.Fake.Served.{World, fake_env}
use directory_size_exporter.Fsstat.Fake.Walked.{Readable, entries_of, process_dir-fake}
use directory_size_exporter.Fsstat.Fake.Descriptors.{process_dir-closes}
use directory_size_exporter.Fsstat.Fake.Linked.{Linked}
use directory_size_exporter.Fsstat.Fake.Built.{Builds, started, file, many, Builds-Linked}
use directory_size_exporter.Fsstat.Fake.Nearest.{Nearest, stat_fs-Nearest}
use directory_size_exporter.Scan.Target.{TargetScan, new_target_scan, no_totals, flush}
use directory_size_exporter.Scan.Walk.{DirRef, Pace, WalkConfig, process_dir}
use directory_size_exporter.Scan.Walk.Pass.{walk_entries}
use directory_size_exporter.Targets.Overlap.{components}
use directory_size_exporter.Targets.Paths.{is_empty, sort_strings, insert_sorted, str_ltb}
use directory_size_exporter.Tests.{at_leisure, at_leisure-IsUnhurried, day}

-- A file and a directory with two synthetic files below it.
abbrev sample : FakeFs
sample =
    add_synthetic_files (str "/data/day/sub") 2 100
      (add_file (str "/data/day/b") 700 (new_fake linux_caps))

abbrev as_listed : ℕ → Str → List Str → List Str
as_listed seed p names = names

abbrev one_a_read : WalkConfig
one_a_read = record {
  batch_size = 1;
  one_filesystem = true;
  dedup_hardlinks = true;
  limited = false;
}

abbrev top : DirRef
top = record { path = day; depth = 0 }

abbrev fresh : TargetScan
fresh = new_target_scan day 50 1000

abbrev no_handle : FakeDir
no_handle = record { path = []; names = []; synthetic = 0; cursor = 0; closed = true }

abbrev day_node : FakeNode
day_node = record (plain_node dir_stat) { children = str "b" ∷ str "sub" ∷ [] }

sample_is_Readable : Readable sample day day_node
unfolding add_synthetic_files add_file add_file_stat add_node_locked link_up list_child new_fake
    clean path_clean replace_separators components is_empty base_of lookup insert contains str_beq
    alloc_of parent_of
sample_is_Readable = record {
  no_open_hook = refl;
  no_read_hook = refl;
  no_open_error = refl;
  there = refl;
  not_link = refl;
  directory = refl;
}

process_dir-fake_example :
    let (children, (totals, t)) =
      walk_entries one_a_read top path_join
        (status_of (clean day) sample)
        (entries_of as_listed sample day day_node)
        []
        (no_totals, fresh) in
    (w : World) × (process_dir
        (fake_env as_listed at_leisure)
        one_a_read
        top
        3
        fresh
        (no_handle, sample)
      ≡ some
          (children, (flush (record totals { dirs = add64 totals.dirs (length children) }) t, w)))
unfolding new_target_scan sort_strings insert_sorted str_ltb add_synthetic_files add_file
    add_file_stat add_node_locked link_up list_child new_fake clean path_clean replace_separators
    components is_empty base_of lookup insert contains str_beq alloc_of parent_of
process_dir-fake_example =
    process_dir-fake as_listed at_leisure sample day_node one_a_read top 3 fresh no_handle
      at_leisure-IsUnhurried sample_is_Readable (omega arith) refl (omega arith)

-- The context ends as soon as one entry has been read.
abbrev stops : Pace World
stops = record { late = λ (d, f). ltb 0 d.cursor; refusal = λ n w. none }

process_dir-closes_example :
    (r : List DirRef × (TargetScan × World)) × (process_dir
        (fake_env as_listed stops)
        one_a_read
        top
        3
        fresh
        (no_handle, sample)
      ≡ some r)
    × let (d, f) = r.1.1 in
      (d.closed ≡ true)
      × (f.open_dirs ≡ 0)
      × ((f.max_open_dirs ≡ 0) ⊎ ((f.max_open_dirs ≡ 1) × (0 < f.max_open_dirs)))
unfolding new_target_scan open_dir open_node sort_strings insert_sorted str_ltb add_synthetic_files
    add_file add_file_stat add_node_locked link_up list_child new_fake clean path_clean
    replace_separators components is_empty base_of lookup insert contains str_beq alloc_of parent_of
process_dir-closes_example =
    process_dir-closes as_listed stops sample no_handle one_a_read top 3 fresh refl (omega arith)
      (omega arith) (omega arith) (omega arith)

sample_built : Builds sample
unfolding add_synthetic_files add_file add_file_stat add_node_locked link_up list_child new_fake
    clean path_clean replace_separators components is_empty base_of lookup insert contains str_beq
    alloc_of parent_of
sample_built =
    many (str "/data/day/sub") 2 100 (file (str "/data/day/b") 700 refl (started linux_caps))

Builds-Linked_example : Linked sample.nodes
Builds-Linked_example = Builds-Linked sample sample_built

abbrev mounted : FakeFs
mounted = set_fs_info (str "/data") no_info sample

stat_fs-Nearest_example : Nearest mounted.infos (clean day) (stat_fs day mounted)
stat_fs-Nearest_example = stat_fs-Nearest day mounted
