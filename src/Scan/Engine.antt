-- ===== src/Scan/Engine.antt =====
-- internal/scan/engine.go: defaults, the check of a root, the end of a target's scan and its result.
-- An int or a time.Duration is a 64-bit word; the float64 rate limit enters by its sign alone.
pub mod Defaults
pub mod Outcomes
use directory_size_exporter.Base.{
  ℕ, ◌+◌, ◌*◌, ◌≡◌, Bool, true, false, not, ◌&&◌, ◌||◌, Option, none, some, List, [], ◌∷◌, Str, str,
  if◌then◌else◌, add64, is_pos64, lt64, time_sub, nat_beq, second,
}
use directory_size_exporter.State.{
  Outcome, complete, partial, timeout, cancelled, missing, root_error, Result,
}
use directory_size_exporter.Scan.ErrClass.{Error, ErrorTally, is_vanished}
use directory_size_exporter.Scan.Target.{FileStat, is_dir, TargetScan, record_error, abandon}

-- `Config`, less the hook that starts a worker.
pub record Config : Type 0 where
  pub concurrency : ℕ
  pub batch_size : ℕ
  pub share_threshold : ℕ
  pub queue_limit : ℕ
  pub rate_limited : Bool  -- RateLimit > 0
  pub rate_limit_burst : ℕ
  pub scan_timeout : ℕ
  pub hard_timeout : ℕ
  pub worker_drain_timeout : ℕ
  pub one_filesystem : Bool
  pub dedup_hardlinks : Bool
  pub max_tracked_inodes : ℕ
  pub heartbeat_after : ℕ
  pub heartbeat_every : ℕ

-- `if c.X <= 0 { c.X = default }`
abbrev pub or_default : ℕ → ℕ → ℕ
or_default default x = if is_pos64 x then x else default

unfoldable pub with_defaults : Config → Config
with_defaults c =
    let batch_size = or_default 1024 c.batch_size in
    record c {
      concurrency = or_default 2 c.concurrency;
      batch_size = batch_size;
      share_threshold = or_default 32 c.share_threshold;
      queue_limit = or_default 65536 c.queue_limit;
      max_tracked_inodes = or_default 2000000 c.max_tracked_inodes;
      worker_drain_timeout = or_default (5 * second) c.worker_drain_timeout;
      heartbeat_every = or_default (30 * second) c.heartbeat_every;
      rate_limit_burst =
          if c.rate_limited && lt64 c.rate_limit_burst (add64 batch_size 1)
          then add64 batch_size 1
          else c.rate_limit_burst;
    }

-- The number of tokens that `waitForTokens` asks for; `burst` is that of the limiter.
unfoldable pub tokens_to_take : ℕ → ℕ → ℕ
tokens_to_take burst n = if lt64 burst n then burst else n

-- `errUnresolvedSymlink`, which is no filesystem error.
abbrev pub err_unresolved_symlink : Error
err_unresolved_symlink = record {
  is_permission = false;
  is_not_exist = false;
  is_eof = false;
  errno = none;
}

-- `prepareRoot`, from the answer of Lstat on. `none` is the ready root; `has_inodes` says that the
-- platform has CapInode.
unfoldable pub prepare_root :
    Bool → Option Error → FileStat → TargetScan → Option Outcome × TargetScan
prepare_root has_inodes (some err) st t =
    (some (if is_vanished err then missing else root_error), record_error err t)
prepare_root has_inodes none st t =
    if st.mode.symlink
    then (some root_error, record_error err_unresolved_symlink t)
    else if not (is_dir st)
    then (some missing, t)
    else if has_inodes
    then (none, record t { root_dev = st.dev; has_root_dev = true })
    else (none, t)

-- What ends the wait of `supervise`: the latch, the deadline of the scan (and after it the latch or
-- the drain timer), or the hard timer.
pub data Wake : Type 0 where
  walk_done : Wake
  deadline_then_done : Wake
  deadline_then_drained : Wake
  hard_timer : Wake

abbrev pub after_wait : Wake → TargetScan → TargetScan
after_wait walk_done t = t
after_wait deadline_then_done t = t
after_wait deadline_then_drained t = abandon t
after_wait hard_timer t = abandon t

-- The `switch` of `supervise`; `ctx_err` and `scan_err` say that the root context and that of the
-- scan have an error.
unfoldable pub final_outcome : Bool → Bool → TargetScan → Outcome
final_outcome ctx_err scan_err t =
    if ctx_err
    then cancelled
    else if scan_err || t.abandoned
    then timeout
    else if is_pos64 t.errors.total || t.inodes_exhausted
    then partial
    else complete

unfoldable pub build_result : ℕ → TargetScan → Outcome → Result
build_result now t outcome = record {
  target = t.path;
  outcome = outcome;
  size_bytes = t.size;
  alloc_bytes = t.alloc;
  files = t.files;
  directories = t.dirs;
  hardlinked_files = t.hardlinked;
  dedup_saved_bytes = t.dedup_saved;
  hardlink_tracking_exhausted = t.inodes_exhausted;
  duration_seconds = time_sub now t.started_at;
  errors = t.errors.counts;
  vanished_files = t.vanished;
  entries_scanned = t.entries;
  stat_calls = t.stat_calls;
  dirs_read = t.dirs_read;
  skipped_other_filesystem = t.skipped_xdev;
}

-- `supervise`: the result that it hands to the sink.
unfoldable pub supervise : Wake → Bool → Bool → ℕ → TargetScan → Result
unfolding final_outcome build_result
supervise wake ctx_err scan_err now t =
    let ended = after_wait wake t in build_result now ended (final_outcome ctx_err scan_err ended)

-- The result of a target in `ScanAll`: at once where the root is not ready, and else that of its
-- supervisor, for the walk that `walk` stands for.
unfoldable pub scan_target :
    Bool
    → Option Error
    → FileStat
    → TargetScan
    → ℕ
    → (TargetScan → TargetScan × Wake × Bool × Bool × ℕ)
    → Result
unfolding prepare_root supervise
scan_target has_inodes err st t now walk =
    let (refused, prepared) = prepare_root has_inodes err st t in
    elim refused [
      | some outcome ↦ build_result now prepared outcome
      | none ↦
          let (walked, wake, ctx_err, scan_err, end) = walk prepared in
          supervise wake ctx_err scan_err end walked
    ]

-- `longest`
abbrev pub longest : ℕ → ℕ → ℕ
longest a b = if lt64 b a then a else b
