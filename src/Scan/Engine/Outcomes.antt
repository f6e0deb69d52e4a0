-- ===== src/Scan/Engine/Outcomes.antt =====
-- Which outcome a scan gets from internal/scan/engine.go, and what the retention rules of
-- internal/state/store.go make of it.
use directory_size_exporter.Base.{
  ℕ, ◌≡◌, ◌≢◌, ◌↔◌, ◌⊎◌, inr, refl, Bool, true, false, not, ◌&&◌, ◌||◌, Option, none, some,
  if◌then◌else◌, is_pos64, arith,
}
use directory_size_exporter.State.{
  Outcome, complete, partial, missing, root_error, Options, TargetState, apply_to_target,
  outcome_eq,
}
use directory_size_exporter.State.Retention.{
  SameBaseline, visible, failed_scan_keeps_baseline, failed_scan_shows_nothing,
}
use directory_size_exporter.Scan.ErrClass.{Error, is_vanished}
use directory_size_exporter.Scan.Target.{FileStat, is_dir, TargetScan, abandon}
use directory_size_exporter.Scan.Engine.{
  prepare_root, Wake, walk_done, deadline_then_done, deadline_then_drained, hard_timer, after_wait,
  final_outcome, build_result, supervise, scan_target,
}

-- The walk was cut short: the process is stopping, the deadline has passed, or the target was given
-- up on.
abbrev pub is_cut_short : Bool → Bool → TargetScan → Bool
is_cut_short ctx_err scan_err t = ctx_err || (scan_err || t.abandoned)

-- The root does not exist, or is something other than a directory or a symbolic link.
abbrev pub is_missing : Option Error → FileStat → Bool
is_missing (some err) st = is_vanished err
is_missing none st = not st.mode.symlink && not (is_dir st)

-- A supervised scan is complete exactly when it was not cut short, no error was tallied and the
-- tracking of hard links was not exhausted.
pub supervise_complete_iff :
    (wake : Wake) (ctx_err scan_err : Bool) (now : ℕ) (t : TargetScan)
    → ((supervise wake ctx_err scan_err now t).outcome ≡ complete) ↔ (
        (is_cut_short ctx_err scan_err (after_wait wake t) ≡ false)
        × (is_pos64 t.errors.total ≡ false)
        × (t.inodes_exhausted ≡ false))
unfolding supervise abandon
supervise_complete_iff walk_done ctx_err scan_err now t = ground arith
supervise_complete_iff wake ctx_err scan_err now t = ground arith

-- A timer ended the wait before the walk was done.
abbrev pub timer_won : Wake → Bool
timer_won walk_done = false
timer_won deadline_then_done = false
timer_won deadline_then_drained = true
timer_won hard_timer = true

-- Nothing ended the walk early, and nothing was left out of it.
abbrev pub is_clean : Wake → Bool → Bool → TargetScan → Bool
is_clean wake ctx_err scan_err t =
    not (timer_won wake || ctx_err || scan_err || t.abandoned)
    && not (is_pos64 t.errors.total || t.inodes_exhausted)

-- What a supervised scan does to the baseline of its target, once the store has its result: it becomes
-- the new baseline, with the sizes that the walk counted and the time of the result, exactly if no timer
-- and no context ended it, the target was not abandoned, no error was tallied and the tracking of hard
-- links was not exhausted; otherwise the baseline stays as it is.
pub supervise_sets_baseline :
    (opts : Options) (wake : Wake) (ctx_err scan_err : Bool) (now applied : ℕ) (t : TargetScan)
    (ts : TargetState)
    → let after = apply_to_target opts applied (supervise wake ctx_err scan_err now t) ts in
      let clean = is_clean wake ctx_err scan_err t in
      (after.has_good ≡ (clean || ts.has_good))
      × (after.good.size ≡ (if clean then t.size else ts.good.size))
      × (after.good.alloc ≡ (if clean then t.alloc else ts.good.alloc))
      × (after.good_at ≡ (if clean then applied else ts.good_at))
unfolding supervise abandon final_outcome build_result apply_to_target
supervise_sets_baseline opts walk_done ctx_err scan_err now applied t ts = ground arith
supervise_sets_baseline opts deadline_then_done ctx_err scan_err now applied t ts = ground arith
supervise_sets_baseline opts deadline_then_drained ctx_err scan_err now applied t ts = ground arith
supervise_sets_baseline opts hard_timer ctx_err scan_err now applied t ts = ground arith

outcome_of_cut_short :
    (ctx_err scan_err : Bool) (t : TargetScan)
    → is_cut_short ctx_err scan_err t ≡ true
    → (final_outcome ctx_err scan_err t ≢ complete) × (final_outcome ctx_err scan_err t ≢ partial)
unfolding final_outcome
outcome_of_cut_short ctx_err scan_err t h = (ground arith, ground arith)

outcome-supervise :
    (wake : Wake) (ctx_err scan_err : Bool) (now : ℕ) (t : TargetScan)
    → (supervise wake ctx_err scan_err now t).outcome
      ≡ final_outcome ctx_err scan_err (after_wait wake t)
unfolding supervise
outcome-supervise wake ctx_err scan_err now t = refl

-- A scan that was cut short changes neither the baseline of the target nor what is shown, whatever
-- the options are, partial publication included.
pub cut_short_publishes_nothing :
    (opts : Options) (wake : Wake) (ctx_err scan_err : Bool) (now : ℕ) (t : TargetScan)
    (ts : TargetState)
    → is_cut_short ctx_err scan_err (after_wait wake t) ≡ true
    → let after = apply_to_target opts now (supervise wake ctx_err scan_err now t) ts in
      SameBaseline after ts × (visible after ≡ visible ts)
cut_short_publishes_nothing opts wake ctx_err scan_err now t ts h =
    let r = supervise wake ctx_err scan_err now t in
    let (incomplete, not_partial) = outcome_of_cut_short ctx_err scan_err (after_wait wake t) h in
    (
      failed_scan_keeps_baseline opts now r ts
          (rw (outcome-supervise wake ctx_err scan_err now t) incomplete),
      failed_scan_shows_nothing opts now r ts
          (rw (outcome-supervise wake ctx_err scan_err now t) incomplete)
          (inr (rw (outcome-supervise wake ctx_err scan_err now t) not_partial)),
    )

-- Waiting out the drain timer or the hard timer cuts the walk short.
pub hung_walk_is_cut_short :
    (ctx_err scan_err : Bool) (t : TargetScan)
    → (is_cut_short ctx_err scan_err (after_wait deadline_then_drained t) ≡ true)
      × (is_cut_short ctx_err scan_err (after_wait hard_timer t) ≡ true)
unfolding abandon
hung_walk_is_cut_short ctx_err scan_err t = (ground arith, ground arith)

-- A root is ready exactly when its Lstat succeeds on a directory that is no symbolic link; it is
-- missing exactly when its Lstat says that it has vanished, or succeeds on what is no directory and no
-- symbolic link; and every other refusal is a root error.
pub prepare_root_exact :
    (has_inodes : Bool) (err : Option Error) (st : FileStat) (t : TargetScan)
    → let refused = (prepare_root has_inodes err st t).0 in
      ((refused ≡ none) ↔ ((err ≡ none) × (st.mode.symlink ≡ false) × (is_dir st ≡ true)))
      × ((refused ≡ some missing) ↔ (is_missing err st ≡ true))
      × ((refused ≡ none) ⊎ (refused ≡ some missing) ⊎ (refused ≡ some root_error))
unfolding prepare_root
prepare_root_exact has_inodes none st t = (ground arith, ground arith, ground arith)
prepare_root_exact has_inodes (some err) st t = (ground arith, ground arith, ground arith)

outcome_of_refusal :
    (has_inodes : Bool) (err : Option Error) (st : FileStat) (t : TargetScan) (now : ℕ)
    (walk : TargetScan → TargetScan × Wake × Bool × Bool × ℕ) (outcome : Outcome)
    → (prepare_root has_inodes err st t).0 ≡ some outcome
    → (scan_target has_inodes err st t now walk).outcome ≡ outcome
unfolding scan_target build_result
outcome_of_refusal has_inodes err st t now walk outcome h = rw (scan_target, h) refl

failed_refusal :
    (has_inodes : Bool) (err : Option Error) (st : FileStat) (t : TargetScan) (outcome : Outcome)
    → (prepare_root has_inodes err st t).0 ≡ some outcome
    → (outcome ≢ complete) × (outcome ≢ partial)
unfolding prepare_root
failed_refusal has_inodes none st t outcome h = (ground arith, ground arith)
failed_refusal has_inodes (some err) st t outcome h = (ground arith, ground arith)

-- A target whose root is not ready changes neither its baseline nor what is shown, whatever the
-- options are.
pub refused_root_publishes_nothing :
    (opts : Options) (has_inodes : Bool) (err : Option Error) (st : FileStat) (t : TargetScan)
    (now : ℕ) (walk : TargetScan → TargetScan × Wake × Bool × Bool × ℕ) (ts : TargetState)
    (outcome : Outcome)
    → (prepare_root has_inodes err st t).0 ≡ some outcome
    → let after = apply_to_target opts now (scan_target has_inodes err st t now walk) ts in
      SameBaseline after ts × (visible after ≡ visible ts)
refused_root_publishes_nothing opts has_inodes err st t now walk ts outcome h =
    let r = scan_target has_inodes err st t now walk in
    let same = outcome_of_refusal has_inodes err st t now walk outcome h in
    let (incomplete, not_partial) = failed_refusal has_inodes err st t outcome h in
    (
      failed_scan_keeps_baseline opts now r ts (rw same incomplete),
      failed_scan_shows_nothing opts now r ts (rw same incomplete) (inr (rw same not_partial)),
    )
