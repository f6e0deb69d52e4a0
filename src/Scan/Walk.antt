-- ===== src/Scan/Walk.antt =====
-- internal/scan/walk.go: reading one directory. The filesystem behind the fsstat interfaces and the
-- rate limiter are the environment: functions on a state `W` of the world, which may change at every
-- call. The open handle is part of the world too.
pub mod Pass
pub mod Listing
pub mod Accounts
pub mod Ends
use directory_size_exporter.Base.{
  ℕ, zero, suc, ◌+◌, ◌≡◌, Bool, true, false, ◌&&◌, ◌||◌, not, Option, none, some, List, [], ◌∷◌,
  ◌++◌, Str, if◌then◌else◌, add64, nat_beq, length,
}
use directory_size_exporter.Scan.ErrClass.{Error, ErrorTally, add_error, is_vanished}
use directory_size_exporter.Scan.Target.{
  FileMode, FileStat, is_dir, is_regular, DirTotals, no_totals, TargetScan, stopping, count_file,
  flush,
}

-- fsstat.Entry
pub record Entry : Type 0 where
  pub name : Str
  pub entry_type : FileMode

-- `dirRef`; the target is the one whose scan is passed along.
pub record DirRef : Type 0 where
  pub path : Str
  pub depth : ℕ

-- fsstat.FS and fsstat.Dir as the walk uses them, the context of the target, and the limiter's WaitN.
-- `close` closes the directory that is open; its error is not looked at.
-- `read_some` returns the entries and the error; a stat returns its error and the filled status.
pub record Env (W : Type 0) : Type 0 where
  pub open_dir : Str → W → Option Error × W
  pub read_some : ℕ → W → (List Entry × Option Error) × W
  pub stat_entry : Str → W → (Option Error × FileStat) × W
  pub close : W → W
  pub ctx_err : W → Bool × W
  pub wait_for_tokens : ℕ → W → Option Error × W
  pub join : Str → Str → Str

-- The context of the target and the limiter, in each world.
pub record Pace (W : Type 0) : Type 0 where
  pub late : W → Bool
  pub refusal : ℕ → W → Option Error

-- The context does not end, and the limiter grants every wait.
pub record IsUnhurried {W : Type 0} (pace : Pace W) : Type 0 where
  pub not_late : (w : W) → pace.late w ≡ false
  pub granted : (n : ℕ) (w : W) → pace.refusal n w ≡ none

-- The settings that the walk reads; `limited` says that there is a limiter.
pub record WalkConfig : Type 0 where
  pub batch_size : ℕ
  pub one_filesystem : Bool
  pub dedup_hardlinks : Bool
  pub limited : Bool

-- `processEntry` below its stat, on success.
unfoldable pub process_stat :
    WalkConfig
    → Str
    → DirRef
    → FileStat
    → DirTotals × TargetScan
    → Option DirRef × (DirTotals × TargetScan)
process_stat cfg child ref st (totals, t) =
    if st.mode.symlink
    then (none, (totals, t))
    else if is_dir st
    then (if cfg.one_filesystem && (t.has_root_dev && not (nat_beq st.dev t.root_dev))
        then (none, (record totals { skipped_xdev = add64 totals.skipped_xdev 1 }, t))
        else (some (record { path = child; depth = ref.depth + 1 }), (totals, t)))
    else if not (is_regular st)
    then (none, (totals, t))
    else (none, count_file cfg.dedup_hardlinks st totals t)

-- `if isVanished(err) { totals.vanished++ } else { totals.errors.add(err) }`
abbrev pub note_failure : Error → DirTotals → DirTotals
note_failure err totals =
    if is_vanished err
    then record totals { vanished = add64 totals.vanished 1 }
    else record totals { errors = add_error (some err) totals.errors }

-- `processEntry` from the stat on, by the error of the stat.
unfoldable pub process_status :
    WalkConfig
    → Str
    → DirRef
    → Option Error
    → FileStat
    → DirTotals × TargetScan
    → Option DirRef × (DirTotals × TargetScan)
process_status cfg child ref (some err) st (totals, t) = (none, (note_failure err totals, t))
process_status cfg child ref none st acc = process_stat cfg child ref st acc

abbrev pub append_child : Option DirRef → List DirRef → List DirRef
append_child none children = children
append_child (some child) children = children ++ child ∷ []

-- How one round of the read loop ends: by `break`, or with another round.
pub data Round (W : Type 0) : Type 0 where
  leave : List DirRef → (DirTotals × TargetScan) × W → Round W
  again : List DirRef → (DirTotals × TargetScan) × W → Round W

-- The tests of the read loop on its errors.
abbrev pub is_eof_error : Option Error → Bool
is_eof_error none = false
is_eof_error (some err) = err.is_eof

abbrev pub is_read_fault : Option Error → Bool
is_read_fault none = false
is_read_fault (some err) = not err.is_eof

abbrev pub is_failed : Option Error → Bool
is_failed none = false
is_failed (some _) = true

module _ {W : Type 0} (env : Env W) (cfg : WalkConfig) (ref : DirRef) where
  unfoldable pub process_entry :
      Entry → (DirTotals × TargetScan) × W → Option DirRef × ((DirTotals × TargetScan) × W)
  process_entry entry ((totals, t), w) =
      let seen = record totals { entries = add64 totals.entries 1 } in
      if entry.entry_type.symlink
      then (none, ((seen, t), w))
      else let called = record seen { stat_calls = add64 seen.stat_calls 1 } in
        let ((err, st), w') = env.stat_entry entry.name w in
        let (child, acc) =
          process_status cfg (env.join ref.path entry.name) ref err st (called, t) in
        (child, (acc, w'))

  -- The loop over a batch.
  unfoldable pub process_batch :
      List Entry
      → List DirRef
      → (DirTotals × TargetScan) × W
      → List DirRef × ((DirTotals × TargetScan) × W)
  process_batch [] children s = (children, s)
  process_batch (entry ∷ entries) children s =
      let (child, s') = process_entry entry s in
      process_batch entries (append_child child children) s'

  -- A round from the batch on: the wait for tokens, the entries, and the test for the end.
  unfoldable pub finish_round :
      List Entry → Option Error → List DirRef → (DirTotals × TargetScan) × W → Round W
  finish_round entries err children (acc, w) =
      let (refused, w') =
        (if cfg.limited then env.wait_for_tokens (length entries + 1) w else (none, w)) in
      if is_failed refused
      then leave children (acc, w')
      else let (children', s) = process_batch entries children (acc, w') in
        if is_eof_error err then leave children' s else again children' s

  unfoldable pub read_round : List DirRef → (DirTotals × TargetScan) × W → Round W
  read_round children ((totals, t), w) =
      let (late, w₁) = env.ctx_err w in
      if stopping late t
      then leave children ((totals, t), w₁)
      else let ((entries, err), w₂) = env.read_some cfg.batch_size w₁ in
        if is_read_fault err
        then leave children ((record totals { errors = add_error err totals.errors }, t), w₂)
        else if nat_beq (length entries) 0
        then leave children ((totals, t), w₂)
        else finish_round entries err children ((totals, t), w₂)

  -- The read loop; `none` says that the fuel ran out.
  unfoldable pub read_loop :
      ℕ
      → List DirRef
      → (DirTotals × TargetScan) × W
      → Option (List DirRef × ((DirTotals × TargetScan) × W))
  read_loop zero children s = none
  read_loop (suc fuel) children s = elim (read_round children s) [
    | leave children' s' ↦ some (children', s')
    | again children' s' ↦ read_loop fuel children' s'
  ]

  -- The end of `processDir`: the count of the children, the flush, and the deferred Close.
  abbrev pub close_dir :
      List DirRef × ((DirTotals × TargetScan) × W) → List DirRef × (TargetScan × W)
  close_dir (children, ((totals, t), w)) = (
    children,
    (flush (record totals { dirs = add64 totals.dirs (length children) }) t, env.close w),
  )

  unfoldable pub process_dir : ℕ → TargetScan → W → Option (List DirRef × (TargetScan × W))
  process_dir fuel t w =
      let (failed, w') = env.open_dir ref.path w in
      elim failed [
        | some err ↦ some ([], (flush (note_failure err no_totals) t, w'))
        | none ↦ elim (read_loop fuel [] ((no_totals, t), w')) [
          | none ↦ none
          | some r ↦ some (close_dir r)
        ]
      ]
