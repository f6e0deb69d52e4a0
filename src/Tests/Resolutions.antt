-- ===== src/Tests/Resolutions.antt =====
-- Examples for internal/targets/resolver.go and internal/config/resolve.go.
use directory_size_exporter.Base.{
  length, ltb, if◌then◌else◌, List, not, none, ◌≡◌, inl, refl, true, false, ◌&&◌, ◌||◌, some, All,
  [], ◌∷◌, Str, str, str_eq, str_beq, arith, is_pos64, le64, time_sub, second, ◌*◌,
}
use directory_size_exporter.Base.Dict.{lookup, insert, delete, has, contains}
use directory_size_exporter.Targets.{
  paths_of, Target, retaining, Resolution, Resolver, Host, match_all, add_matches, expand,
  resolve_one, resolve, publish, carry_forward, carry_one, absent_from, mark_overlaps, within_grace,
  vanished_since,
}
use directory_size_exporter.Targets.Paths.{
  has_meta, trim_space, is_under, is_empty, has_prefix, ends_in_separator, sort_strings,
  insert_sorted, str_ltb,
}
use directory_size_exporter.Targets.Pass.{resolve_tracks, resolve_changes_exact}
use directory_size_exporter.Targets.Keyed.{IsKeyed, resolve_targets_exact}
use directory_size_exporter.Targets.Overlap.{components, is_inside, mark_overlaps_exact}
use directory_size_exporter.Fsstat.{Capabilities, cap_fs_bytes}
use directory_size_exporter.Config.{
  tri_auto, tri_true, tri_false, Settings, Resolved, validate, check_settings, check_durations,
  durations, check_counts, counts, check_rest, derive_hard_timeout, resolve_gates, resolve_gate,
  gates,
}
use directory_size_exporter.Config.Effective.{IsGated, validate-IsGated, validate_timeouts}
use directory_size_exporter.Tests.{day, night}

-- A host on which every path is a directory and no pattern has a match.
abbrev pub flat_host : Host
flat_host = record {
  glob = λ pattern. some [];
  abs = λ path. some path;
  eval_symlinks = λ path. some path;
  clean = λ path. path;
  stat = λ path. some true;
}

abbrev pub target_at : Str → Target
target_at path = record { path = path; pattern = path; overlaps = []; present = true }

-- It is to watch `day`, and knew `night`, missing since 100.
abbrev resolver : Resolver
resolver = record {
  patterns = day ∷ [];
  opts = record { max = 5; retain_vanished = 1000 };
  vanished_at = (night, 100) ∷ [];
  known = (night, target_at night) ∷ [];
}

-- What its pass at 200 gives.
abbrev resolution : Resolution
resolution = record {
  targets = target_at day ∷ record (target_at night) { present = false } ∷ [];
  added = day ∷ [];
  removed = [];
  warnings = retaining night 900 ∷ [];
}

resolves : (resolve flat_host 200 resolver).0 ≡ inl resolution
unfolding resolve match_all add_matches expand has_meta resolve_one trim_space is_empty
    carry_forward carry_one publish sort_strings insert_sorted str_ltb mark_overlaps is_under
    ends_in_separator has_prefix absent_from lookup insert delete str_beq time_sub
resolves = refl

resolve_tracks_example :
    let after = (resolve flat_host 200 resolver).1 in
    let since = vanished_since 200 (lookup night resolver.vanished_at) in
    let matches = has night ((day, target_at day) ∷ []) in
    let kept = has night resolver.known && within_grace resolver.opts 200 since in
    (has night after.known ≡ (matches || kept))
    × (lookup night after.vanished_at ≡ (
        if has night resolver.known
        then (if not matches && kept then some since else none)
        else lookup night resolver.vanished_at))
unfolding match_all add_matches expand has_meta resolve_one trim_space is_empty lookup insert
    contains
resolve_tracks_example =
    resolve_tracks flat_host 200 resolver ((day, target_at day) ∷ [], []) resolution night refl
      resolves (refl, tt)

resolve_targets_exact_example :
    (contains night (paths_of resolution.targets)
      ≡ has night (resolve flat_host 200 resolver).1.known)
    × IsKeyed (resolve flat_host 200 resolver).1.known
unfolding match_all add_matches expand has_meta resolve_one trim_space is_empty lookup insert
resolve_targets_exact_example =
    resolve_targets_exact flat_host 200 resolver ((day, target_at day) ∷ [], []) resolution night
      refl resolves (refl, tt)

-- The resolver without its patterns.
abbrev aimless : Resolver
aimless = record resolver { patterns = [] }

abbrev nested : List Target
nested = target_at (str "/data") ∷ target_at day ∷ target_at (str "/database") ∷ []

mark_overlaps_exact_example :
    All
      (λ target. contains (str "/data") target.overlaps ≡ (
        contains (str "/data") (paths_of nested)
        && is_inside (components (str "/data")) (components target.path)))
      (mark_overlaps nested)
unfolding ends_in_separator
mark_overlaps_exact_example =
    mark_overlaps_exact nested (str "/data") refl (refl, (refl, (refl, tt)))

-- The defaults of the program for one target.
abbrev settings : Settings
settings = record {
  target_patterns = day ∷ [];
  targets_max = 200;
  targets_retain_vanished = 600 * second;
  targets_refresh_interval = 300 * second;
  scan_interval = 300 * second;
  scan_timeout = 0;
  scan_hard_timeout = 0;
  scan_worker_drain_timeout = 5 * second;
  scan_statfs_timeout = 5 * second;
  scan_concurrency = 2;
  scan_batch_size = 1024;
  scan_share_threshold = 32;
  scan_queue_limit = 65536;
  negative_rate_limit = false;
  scan_max_tracked_inodes = 2000000;
  scan_one_filesystem = tri_false;
  scan_dedup_hardlinks = tri_true;
  scan_stale_after = 0;
  scan_nice = 19;
  scan_io_priority = str "idle";
  collector_disk_usage = tri_auto;
  collector_filesystem = tri_auto;
  web_listen_addresses = str ":9115" ∷ [];
  web_systemd_socket = false;
  web_telemetry_path = str "/metrics";
  log_scan_heartbeat = 30 * second;
  log_heartbeat_interval = 30 * second;
}

-- A platform without the capacity of a filesystem.
abbrev platform : Capabilities
platform = record {
  alloc_bytes = true;
  inode = true;
  fs_bytes = false;
  fs_inodes = false;
  mountpoint = true;
}

abbrev admitted : Resolved
admitted = record {
  config = record settings { scan_hard_timeout = 86400 * second };
  one_filesystem = false;
  dedup_hardlinks = true;
  disk_usage = true;
  filesystem = false;
  disabled = (str "collector.filesystem", cap_fs_bytes) ∷ [];
}

admits : validate true platform settings ≡ inl admitted
unfolding validate check_settings check_durations durations check_counts counts check_rest
    derive_hard_timeout resolve_gates resolve_gate gates contains str_beq insert
admits = refl

validate-IsGated_example : IsGated platform settings admitted
validate-IsGated_example = validate-IsGated true platform settings admitted admits

validate_timeouts_example :
    (is_pos64 admitted.config.scan_hard_timeout ≡ true)
    × ((is_pos64 admitted.config.scan_timeout
          && le64 admitted.config.scan_hard_timeout admitted.config.scan_timeout)
        ≡ false)
    × ((is_pos64 admitted.config.scan_stale_after
          && le64 admitted.config.scan_stale_after admitted.config.scan_interval)
        ≡ false)
validate_timeouts_example = validate_timeouts true platform settings admitted admits (omega arith)

resolve_changes_exact_example :
    (contains day resolution.added
      ≡ (has day (resolve flat_host 200 resolver).1.known && not (has day resolver.known)))
    × (contains day resolution.removed
        ≡ (has day resolver.known && not (has day (resolve flat_host 200 resolver).1.known)))
    × ((is_pos64 5 && ltb 5 (length (resolve flat_host 200 resolver).1.known)) ≡ false)
resolve_changes_exact_example = resolve_changes_exact flat_host 200 resolver resolution day resolves
