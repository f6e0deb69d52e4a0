-- ===== src/Config.antt =====
-- internal/config/config.go and resolve.go: `Tristate`, the checks of `Validate` and the gates on
-- what the platform can measure. The float64 rate limit enters by its sign, log lines are left out.
pub mod Effective
pub mod Fields
pub mod Registry
pub mod Arguments
pub mod Printed
use directory_size_exporter.Base.{
  leb, ℕ, ◌+◌, ◌-◌, ◌*◌, ◌%◌, ◌^◌, ◌⊎◌, inl, inr, Bool, true, false, not, ◌&&◌, ◌||◌, Option, none,
  some, List, [], ◌∷◌, Str, str, str_eq, ◌==◌, if◌then◌else◌, nat_beq, is_neg64, is_pos64, lt64,
  le64, second,
}
use directory_size_exporter.Fsstat.{
  Capability, cap_inode, cap_alloc_bytes, cap_fs_bytes, Capabilities, has_cap,
}
use directory_size_exporter.Targets.Paths.{trim_space}
use directory_size_exporter.Base.Dict.{insert, contains}

pub data Tristate : Type 0 where
  tri_auto : Tristate
  tri_true : Tristate
  tri_false : Tristate

-- `strings.ToLower`, for ASCII.
abbrev pub to_lower : Str → Str
to_lower [] = []
to_lower (c ∷ s) = (if leb 65 c && leb c 90 then c + 32 else c) ∷ to_lower s

-- `Tristate.Set`
unfoldable pub set_tristate : Str → Option Tristate
set_tristate raw =
    let text = to_lower (trim_space raw) in
    if contains text (str "auto" ∷ [] ∷ [])
    then some tri_auto
    else if contains text (str "true" ∷ str "yes" ∷ str "1" ∷ str "on" ∷ [])
    then some tri_true
    else if contains text (str "false" ∷ str "no" ∷ str "0" ∷ str "off" ∷ [])
    then some tri_false
    else none

-- `Tristate.String`
abbrev pub show_tristate : Tristate → Str
show_tristate tri_auto = str "auto"
show_tristate tri_true = str "true"
show_tristate tri_false = str "false"

-- The fields of `Config` that `Validate` reads.
pub record Settings : Type 0 where
  pub target_patterns : List Str
  pub targets_max : ℕ
  pub targets_retain_vanished : ℕ
  pub targets_refresh_interval : ℕ
  pub scan_interval : ℕ
  pub scan_timeout : ℕ
  pub scan_hard_timeout : ℕ
  pub scan_worker_drain_timeout : ℕ
  pub scan_statfs_timeout : ℕ
  pub scan_concurrency : ℕ
  pub scan_batch_size : ℕ
  pub scan_share_threshold : ℕ
  pub scan_queue_limit : ℕ
  pub negative_rate_limit : Bool  -- ScanRateLimit < 0
  pub scan_max_tracked_inodes : ℕ
  pub scan_one_filesystem : Tristate
  pub scan_dedup_hardlinks : Tristate
  pub scan_stale_after : ℕ
  pub scan_nice : ℕ
  pub scan_io_priority : Str
  pub collector_disk_usage : Tristate
  pub collector_filesystem : Tristate
  pub web_listen_addresses : List Str
  pub web_systemd_socket : Bool
  pub web_telemetry_path : Str
  pub log_scan_heartbeat : ℕ
  pub log_heartbeat_interval : ℕ

pub data ConfigError : Type 0 where
  no_target : ConfigError
  not_positive : Str → ConfigError
  negative : Str → ConfigError
  bad_telemetry_path : ConfigError
  no_listen_address : ConfigError
  socket_not_linux : ConfigError
  bad_io_priority : Str → ConfigError
  bad_nice : ℕ → ConfigError
  hard_timeout_too_low : ConfigError
  stale_after_too_low : ConfigError
  unsupported : Str → Capability → ConfigError

-- The loop over the durations: name, value, and whether zero is allowed.
unfoldable pub check_durations : List (Str × ℕ × Bool) → Option ConfigError
check_durations [] = none
check_durations ((name, value, zero_ok) ∷ checks) =
    let rest = check_durations checks in
    if is_neg64 value || (not zero_ok && nat_beq value 0) then some (not_positive name) else rest

-- The loop over the counts.
unfoldable pub check_counts : List (Str × ℕ) → Option ConfigError
check_counts [] = none
check_counts ((name, value) ∷ checks) =
    let rest = check_counts checks in
    if not (is_pos64 value) then some (not_positive name) else rest

unfoldable pub durations : Settings → List (Str × ℕ × Bool)
durations cfg =
    (str "scan.interval", cfg.scan_interval, false)
    ∷ (str "scan.timeout", cfg.scan_timeout, true)
    ∷ (str "scan.hard-timeout", cfg.scan_hard_timeout, true)
    ∷ (str "scan.stale-after", cfg.scan_stale_after, true)
    ∷ (str "scan.statfs-timeout", cfg.scan_statfs_timeout, false)
    ∷ (str "scan.worker-drain-timeout", cfg.scan_worker_drain_timeout, false)
    ∷ (str "targets.refresh-interval", cfg.targets_refresh_interval, false)
    ∷ (str "targets.retain-vanished", cfg.targets_retain_vanished, true)
    ∷ (str "log.scan-heartbeat", cfg.log_scan_heartbeat, true)
    ∷ (str "log.heartbeat-interval", cfg.log_heartbeat_interval, false)
    ∷ []

unfoldable pub counts : Settings → List (Str × ℕ)
counts cfg =
    (str "scan.concurrency", cfg.scan_concurrency)
    ∷ (str "scan.batch-size", cfg.scan_batch_size)
    ∷ (str "scan.share-threshold", cfg.scan_share_threshold)
    ∷ (str "scan.queue-limit", cfg.scan_queue_limit)
    ∷ (str "targets.max", cfg.targets_max)
    ∷ []

abbrev pub is_null {ℓ} : {A : Type ℓ} → List A → Bool
is_null [] = true
is_null (_ ∷ _) = false

-- The path is not empty and its first byte is a slash.
abbrev pub starts_with_slash : Str → Bool
starts_with_slash [] = false
starts_with_slash (c ∷ _) = nat_beq c 47

-- The first error that is there.
abbrev pub first_error : Option ConfigError → Option ConfigError → Option ConfigError
first_error (some e) later = some e
first_error none later = later

-- The checks of `Validate` after the two loops, up to that of the hard timeout.
unfoldable pub check_rest : Bool → Settings → Option ConfigError
check_rest linux cfg =
    if cfg.negative_rate_limit
    then some (negative (str "scan.rate-limit"))
    else if is_neg64 cfg.scan_max_tracked_inodes
    then some (negative (str "scan.max-tracked-inodes"))
    else if not (starts_with_slash cfg.web_telemetry_path)
    then some bad_telemetry_path
    else if is_null cfg.web_listen_addresses && not cfg.web_systemd_socket
    then some no_listen_address
    else if cfg.web_systemd_socket && not linux
    then some socket_not_linux
    else if not (contains cfg.scan_io_priority (str "idle" ∷ str "best-effort" ∷ str "none" ∷ []))
    then some (bad_io_priority cfg.scan_io_priority)
    else if lt64 cfg.scan_nice (2 ^ 64 - 20) || lt64 19 cfg.scan_nice
    then some (bad_nice cfg.scan_nice)
    else if is_pos64 cfg.scan_hard_timeout
        && is_pos64 cfg.scan_timeout
        && le64 cfg.scan_hard_timeout cfg.scan_timeout
    then some hard_timeout_too_low
    else none

unfoldable pub check_settings : Bool → Settings → Option ConfigError
check_settings linux cfg =
    if is_null cfg.target_patterns
    then some no_target
    else first_error (check_durations (durations cfg))
        (first_error (check_counts (counts cfg)) (check_rest linux cfg))

-- `defaultHardTimeoutBackstop`
abbrev pub default_hard_timeout_backstop : ℕ
default_hard_timeout_backstop = 24 * 3600 * second

-- The hard timeout where none is set.
unfoldable pub derive_hard_timeout : Settings → Settings
derive_hard_timeout cfg =
    if nat_beq cfg.scan_hard_timeout 0
    then record cfg {
      scan_hard_timeout =
          if is_pos64 cfg.scan_timeout
          then (2 * cfg.scan_timeout) % 2 ^ 64
          else default_hard_timeout_backstop;
    }
    else cfg

-- `Resolved`, less the listener's configuration; `disabled` has the names of the features.
pub record Resolved : Type 0 where
  pub config : Settings
  pub one_filesystem : Bool
  pub dedup_hardlinks : Bool
  pub disk_usage : Bool
  pub filesystem : Bool
  pub disabled : List (Str × Capability)

-- `resolveGate`, with the features disabled so far.
unfoldable pub resolve_gate :
    Str
    → Tristate
    → Capability
    → Capabilities
    → List (Str × Capability)
    → (Bool × List (Str × Capability)) ⊎ ConfigError
resolve_gate name tri_false need caps disabled = inl (false, disabled)
resolve_gate name tri_true need caps disabled =
    if not (has_cap need caps) then inr (unsupported name need) else inl (true, disabled)
resolve_gate name tri_auto need caps disabled =
    if not (has_cap need caps) then inl (false, insert name need disabled) else inl (true, disabled)

-- The loop over the gates, each with its outcome in turn.
unfoldable pub resolve_gates :
    Capabilities
    → List (Str × Tristate × Capability)
    → List (Str × Capability)
    → (List Bool × List (Str × Capability)) ⊎ ConfigError
resolve_gates caps [] disabled = inl ([], disabled)
resolve_gates caps ((name, value, need) ∷ gates) disabled =
    elim (resolve_gate name value need caps disabled) [
      | inr e ↦ inr e
      | inl (enabled, disabled') ↦ elim (resolve_gates caps gates disabled') [
        | inr e ↦ inr e
        | inl (rest, last) ↦ inl (enabled ∷ rest, last)
      ]
    ]

unfoldable pub gates : Settings → List (Str × Tristate × Capability)
gates cfg =
    (str "scan.one-filesystem", cfg.scan_one_filesystem, cap_inode)
    ∷ (str "scan.dedup-hardlinks", cfg.scan_dedup_hardlinks, cap_inode)
    ∷ (str "collector.disk-usage", cfg.collector_disk_usage, cap_alloc_bytes)
    ∷ (str "collector.filesystem", cfg.collector_filesystem, cap_fs_bytes)
    ∷ []

-- The outcomes of the four gates in their places.
abbrev pub with_gates : Settings → List Bool × List (Str × Capability) → Resolved
with_gates cfg (a ∷ b ∷ c ∷ d ∷ _, disabled) = record {
  config = cfg;
  one_filesystem = a;
  dedup_hardlinks = b;
  disk_usage = c;
  filesystem = d;
  disabled = disabled;
}
with_gates cfg (_, disabled) = record {
  config = cfg;
  one_filesystem = false;
  dedup_hardlinks = false;
  disk_usage = false;
  filesystem = false;
  disabled = disabled;
}

abbrev pub gated :
    Settings → (List Bool × List (Str × Capability)) ⊎ ConfigError → Resolved ⊎ ConfigError
gated cfg (inr e) = inr e
gated cfg (inl outcomes) = inl (with_gates cfg outcomes)

-- `Validate`; `linux` says that the program runs on it.
unfoldable pub validate : Bool → Capabilities → Settings → Resolved ⊎ ConfigError
validate linux caps cfg = elim (check_settings linux cfg) [
  | some e ↦ inr e
  | none ↦
      let derived = derive_hard_timeout cfg in
      if is_pos64 derived.scan_stale_after && le64 derived.scan_stale_after derived.scan_interval
      then inr stale_after_too_low
      else gated derived (resolve_gates caps (gates derived) [])
]
