-- ===== src/Collector/Descs.antt =====
-- internal/collector/descs.go: the descriptors. A metric is known by its name, without the common
-- prefix `dir_exporter_`, which is the same for all; the help texts are left out.
use directory_size_exporter.Base.{List, [], ◌∷◌, map, Str, str}

pub data Desc : Type 0 where
  size disk_usage files dirs hardlinked dedup_saved dedup_broke : Desc
  delta delta_interval bytes_added bytes_removed : Desc
  success partial present last_good_time last_attempt scan_age in_progress current_scan : Desc
  last_duration scans_total last_errors errors_total vanished_total : Desc
  entries_total stat_calls_total dirs_read_total skipped_xdev : Desc
  scans_skipped abandoned_workers rate_limit_wait capability targets_resolved : Desc
  fs_size fs_free fs_avail fs_files fs_files_free mountpoint_info statfs_timeouts : Desc
  fs_unavailable : Desc

abbrev pub name_of : Desc → Str
name_of size = str "size_bytes"
name_of disk_usage = str "disk_usage_bytes"
name_of files = str "files"
name_of dirs = str "directories"
name_of hardlinked = str "hardlinked_files"
name_of dedup_saved = str "hardlink_dedup_saved_bytes"
name_of dedup_broke = str "hardlink_tracking_exhausted"
name_of delta = str "size_delta_bytes"
name_of delta_interval = str "size_delta_interval_seconds"
name_of bytes_added = str "bytes_added_total"
name_of bytes_removed = str "bytes_removed_total"
name_of success = str "last_scan_success"
name_of partial = str "last_scan_partial"
name_of present = str "target_present"
name_of last_good_time = str "last_good_scan_timestamp_seconds"
name_of last_attempt = str "last_scan_attempt_timestamp_seconds"
name_of scan_age = str "scan_age_seconds"
name_of in_progress = str "scan_in_progress"
name_of current_scan = str "current_scan_duration_seconds"
name_of last_duration = str "last_scan_duration_seconds"
name_of scans_total = str "scans_total"
name_of last_errors = str "last_scan_errors"
name_of errors_total = str "scan_errors_total"
name_of vanished_total = str "scan_vanished_files_total"
name_of entries_total = str "scan_entries_total"
name_of stat_calls_total = str "scan_stat_calls_total"
name_of dirs_read_total = str "scan_dirs_read_total"
name_of skipped_xdev = str "scan_skipped_other_filesystem_total"
name_of scans_skipped = str "scan_skipped_total"
name_of abandoned_workers = str "abandoned_scan_workers"
name_of rate_limit_wait = str "scan_rate_limit_wait_seconds_total"
name_of capability = str "platform_capability"
name_of targets_resolved = str "targets_resolved"
name_of fs_size = str "filesystem_size_bytes"
name_of fs_free = str "filesystem_free_bytes"
name_of fs_avail = str "filesystem_avail_bytes"
name_of fs_files = str "filesystem_files"
name_of fs_files_free = str "filesystem_files_free"
name_of mountpoint_info = str "target_mountpoint_info"
name_of statfs_timeouts = str "statfs_timeouts_total"
name_of fs_unavailable = str "filesystem_info_unavailable"

-- `targetLabel` and `fsLabels`
abbrev pub target_label : List Str
target_label = str "target_path" ∷ []

abbrev pub fs_labels : List Str
fs_labels = str "mountpoint" ∷ str "device" ∷ str "fstype" ∷ []

abbrev pub labels_of : Desc → List Str
labels_of scans_total = str "target_path" ∷ str "result" ∷ []
labels_of last_errors = str "target_path" ∷ str "class" ∷ []
labels_of errors_total = str "target_path" ∷ str "class" ∷ []
labels_of scans_skipped = []
labels_of abandoned_workers = []
labels_of rate_limit_wait = []
labels_of capability = str "capability" ∷ []
labels_of targets_resolved = []
labels_of fs_size = fs_labels
labels_of fs_free = fs_labels
labels_of fs_avail = fs_labels
labels_of fs_files = fs_labels
labels_of fs_files_free = fs_labels
labels_of mountpoint_info = str "target_path" ∷ fs_labels
labels_of _ = target_label

-- `all`
abbrev pub all_descs : List Desc
all_descs =
    size ∷ disk_usage ∷ files ∷ dirs ∷ hardlinked ∷ dedup_saved ∷ dedup_broke ∷ delta
    ∷ delta_interval ∷ bytes_added ∷ bytes_removed ∷ success ∷ partial ∷ present ∷ last_good_time
    ∷ last_attempt ∷ scan_age ∷ in_progress ∷ current_scan ∷ last_duration ∷ scans_total
    ∷ last_errors ∷ errors_total ∷ vanished_total ∷ entries_total ∷ stat_calls_total
    ∷ dirs_read_total ∷ skipped_xdev ∷ scans_skipped ∷ abandoned_workers ∷ rate_limit_wait
    ∷ capability ∷ targets_resolved ∷ fs_size ∷ fs_free ∷ fs_avail ∷ fs_files ∷ fs_files_free
    ∷ mountpoint_info ∷ statfs_timeouts ∷ fs_unavailable ∷ []

-- The metrics of a filesystem, those of the cache that have a target, and those of the engine.
abbrev pub fs_names : List Str
fs_names = map name_of (fs_size ∷ fs_free ∷ fs_avail ∷ fs_files ∷ fs_files_free ∷ [])

abbrev pub entry_names : List Str
entry_names = map name_of (statfs_timeouts ∷ fs_unavailable ∷ mountpoint_info ∷ [])

abbrev pub engine_names : List Str
engine_names =
    map name_of
      (scans_skipped ∷ abandoned_workers ∷ rate_limit_wait ∷ capability ∷ targets_resolved ∷ [])
