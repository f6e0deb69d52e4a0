-- ===== src/Collector/Filesystem.antt =====
-- internal/collector/filesystem.go: the cache of filesystem capacity. What a query gives is a
-- parameter, as is the error of the context when the turn of a target comes.
pub mod Refresh
pub mod Once
use directory_size_exporter.Base.{
  ℕ, Bool, true, false, not, ◌&&◌, ◌||◌, Option, none, some, List, [], ◌∷◌, ◌++◌, map, Str, str,
  str_eq, if◌then◌else◌, add64, ◌==◌,
}
use directory_size_exporter.Base.Dict.{lookup, insert, has, contains}
use directory_size_exporter.State.{count_or_zero}
use directory_size_exporter.Fsstat.{Capabilities}
use directory_size_exporter.Collector.Descs.{
  fs_size, fs_free, fs_avail, fs_files, fs_files_free, mountpoint_info, statfs_timeouts,
  fs_unavailable,
}
use directory_size_exporter.Collector.Series.{
  Value, flag, count, gauge, counter, Sample, strs_eq, when,
}

-- fsstat.FSInfo
pub record FsInfo : Type 0 where
  pub total_bytes : ℕ
  pub free_bytes : ℕ
  pub avail_bytes : ℕ
  pub total_inodes : ℕ
  pub free_inodes : ℕ
  pub mountpoint : Str
  pub device : Str
  pub fs_type : Str

-- `fsEntry`
pub record FsEntry : Type 0 where
  pub info : FsInfo
  pub available : Bool

abbrev pub no_info : FsInfo
no_info = record {
  total_bytes = 0;
  free_bytes = 0;
  avail_bytes = 0;
  total_inodes = 0;
  free_inodes = 0;
  mountpoint = [];
  device = [];
  fs_type = [];
}

abbrev pub no_entry : FsEntry
no_entry = record { info = no_info; available = false }

-- `FilesystemCache`
pub record Cache : Type 0 where
  pub by_target : List (Str × FsEntry)
  pub timeouts : List (Str × ℕ)

abbrev pub new_cache : Cache
new_cache = record { by_target = []; timeouts = [] }

-- What ends the wait for a query: its answer, its error, the timer, or the context.
pub data Answer : Type 0 where
  answered : FsInfo → Answer
  failed timed_out stopped : Answer

-- `statfsWithTimeout`: what it writes to the timeouts, and what `Refresh` makes of its result.
abbrev pub count_timeout : Answer → Str → List (Str × ℕ) → List (Str × ℕ)
count_timeout timed_out target timeouts =
    insert target (add64 (count_or_zero (lookup target timeouts)) 1) timeouts
count_timeout _ target timeouts = timeouts

abbrev pub entry_of : Answer → FsEntry
entry_of (answered info) = record { info = info; available = true }
entry_of _ = no_entry

-- The end of `Refresh`: the timeouts of the targets that are no longer there go.
unfoldable pub drop_absent : List (Str × FsEntry) → List (Str × ℕ) → List (Str × ℕ)
drop_absent next [] = []
drop_absent next ((target, n) ∷ timeouts) =
    let rest = drop_absent next timeouts in if has target next then (target, n) ∷ rest else rest

module _ (late : Str → Bool) (query : Str → Answer) where
  -- The loop of `Refresh`; `none` says that it returned early.
  unfoldable pub refresh_each :
      List Str
      → List (Str × FsEntry) × List (Str × ℕ)
      → Option (List (Str × FsEntry)) × List (Str × ℕ)
  refresh_each [] (next, timeouts) = (some next, timeouts)
  refresh_each (target ∷ targets) (next, timeouts) =
      let rest = refresh_each targets (
        insert target (entry_of (query target)) next,
        count_timeout (query target) target timeouts,
      ) in
      if late target then (none, timeouts) else rest

  unfoldable pub refresh : List Str → Cache → Cache
  refresh targets c =
      let (done, timeouts) = refresh_each targets ([], c.timeouts) in
      elim done [
        | none ↦ record c { timeouts = timeouts }
        | some next ↦ record { by_target = next; timeouts = drop_absent next timeouts }
      ]

-- The labels of a filesystem.
abbrev pub fs_key : FsInfo → List Str
fs_key info = info.mountpoint ∷ info.device ∷ info.fs_type ∷ []

-- The samples of one filesystem.
abbrev pub fs_samples : Capabilities → FsInfo → List Sample
fs_samples caps info =
    record { kind = gauge; desc = fs_size; value = count info.total_bytes; labels = fs_key info }
    ∷ record { kind = gauge; desc = fs_free; value = count info.free_bytes; labels = fs_key info }
    ∷ record { kind = gauge; desc = fs_avail; value = count info.avail_bytes; labels = fs_key info }
    ∷ when caps.fs_inodes (
        record {
          kind = gauge;
          desc = fs_files;
          value = count info.total_inodes;
          labels = fs_key info;
        }
        ∷ record {
          kind = gauge;
          desc = fs_files_free;
          value = count info.free_inodes;
          labels = fs_key info;
        }
        ∷ [])

-- What is sent for one target, with the filesystems seen before it.
abbrev pub entry_samples :
    Capabilities → List (Str × ℕ) → List (List Str) → Str → FsEntry → List Sample
entry_samples caps timeouts seen target entry =
    record {
      kind = counter;
      desc = statfs_timeouts;
      value = count (count_or_zero (lookup target timeouts));
      labels = target ∷ [];
    }
    ∷ record {
      kind = gauge;
      desc = fs_unavailable;
      value = flag (not entry.available);
      labels = target ∷ [];
    }
    ∷ when entry.available (
        record {
          kind = gauge;
          desc = mountpoint_info;
          value = count 1;
          labels = target ∷ fs_key entry.info;
        }
        ∷ when (not (contains (fs_key entry.info) seen)) (fs_samples caps entry.info))

abbrev pub now_seen : FsEntry → List (List Str) → List (List Str)
now_seen entry seen =
    if entry.available && not (contains (fs_key entry.info) seen)
    then fs_key entry.info ∷ seen
    else seen

-- `collectFilesystems`
unfoldable pub collect_entries :
    Capabilities → List (Str × ℕ) → List (List Str) → List (Str × FsEntry) → List Sample
collect_entries caps timeouts seen [] = []
collect_entries caps timeouts seen ((target, entry) ∷ entries) =
    entry_samples caps timeouts seen target entry
    ++ collect_entries caps timeouts (now_seen entry seen) entries

abbrev pub collect_filesystems : Capabilities → Cache → List Sample
collect_filesystems caps c = collect_entries caps c.timeouts [] c.by_target
