-- ===== src/Scan/Walk/Pass.antt =====
-- One pass over the entries of a directory, which the walk of internal/scan/walk.go is compared with,
-- and what a directory promises that stays as it is while it is read.
use directory_size_exporter.Base.{
  ℕ, ◌<◌, ◌≡◌, refl, ◌∙◌, true, false, Option, none, List, [], ◌∷◌, ◌++◌, Str, if◌then◌else◌, add64,
  arith,
}
use directory_size_exporter.Scan.ErrClass.{Error}
use directory_size_exporter.Scan.Target.{FileStat, DirTotals, TargetScan, count_file}
use directory_size_exporter.Scan.Walk.{
  Entry, DirRef, Env, WalkConfig, append_child, process_stat, process_status, is_eof_error,
  is_read_fault,
}

-- The specification: one pass over the entries, with `stat` for what a stat of a name gives.
module _ (cfg : WalkConfig) (ref : DirRef) (join : Str → Str → Str)
    (stat : Str → Option Error × FileStat) where
  unfoldable pub walk_entry :
      Entry → DirTotals × TargetScan → Option DirRef × (DirTotals × TargetScan)
  walk_entry entry (totals, t) =
      let seen = record totals { entries = add64 totals.entries 1 } in
      if entry.entry_type.symlink
      then (none, (seen, t))
      else process_status cfg (join ref.path entry.name) ref (stat entry.name).0 (stat entry.name).1
          (record seen { stat_calls = add64 seen.stat_calls 1 }, t)

  unfoldable pub walk_entries :
      List Entry → List DirRef → DirTotals × TargetScan → List DirRef × (DirTotals × TargetScan)
  walk_entries [] children acc = (children, acc)
  walk_entries (entry ∷ entries) children acc =
      let (child, acc') = walk_entry entry acc in
      walk_entries entries (append_child child children) acc'

  pub walk_entries-append :
      (es fs : List Entry) (children : List DirRef) (acc : DirTotals × TargetScan)
      → walk_entries (es ++ fs) children acc
        ≡ walk_entries fs (walk_entries es children acc).0 (walk_entries es children acc).1
  unfolding walk_entries
  walk_entries-append [] fs children acc = refl
  walk_entries-append (e ∷ es) fs children acc =
      walk_entries-append es fs (append_child (walk_entry e acc).0 children) (walk_entry e acc).1

  abandoned-walk_entry :
      (entry : Entry) (totals : DirTotals) (t : TargetScan)
      → (walk_entry entry (totals, t)).1.1.abandoned ≡ t.abandoned
  unfolding walk_entry process_status process_stat count_file
  abandoned-walk_entry entry totals t = ground arith

  pub abandoned-walk_entries :
      (es : List Entry) (children : List DirRef) (acc : DirTotals × TargetScan)
      → (walk_entries es children acc).1.1.abandoned ≡ acc.1.abandoned
  unfolding walk_entries
  abandoned-walk_entries [] children acc = refl
  abandoned-walk_entries (e ∷ es) children (totals, t) =
      abandoned-walk_entries es (append_child (walk_entry e (totals, t)).0 children)
        (walk_entry e (totals, t)).1
      ∙ abandoned-walk_entry e totals t

-- What a directory that stays as it is promises: in the worlds that satisfy `At es` the entries `es`
-- are still to be read. A read of a positive number of entries returns some of them, unless there
-- are none, and io.EOF only at the end; a stat always gives the same answer; and neither the context
-- nor the limiter intervenes.
pub record Listing {W : Type 0} (env : Env W) (stat : Str → Option Error × FileStat)
    (At : List Entry → W → Type 0) : Type 0 where
  pub not_late :
      (es : List Entry) (w : W) → At es w → ((env.ctx_err w).0 ≡ false) × At es (env.ctx_err w).1
  pub tokens :
      (n : ℕ) (es : List Entry) (w : W)
      → At es w
      → ((env.wait_for_tokens n w).0 ≡ none) × At es (env.wait_for_tokens n w).1
  pub stats :
      (name : Str) (es : List Entry) (w : W)
      → At es w
      → ((env.stat_entry name w).0 ≡ stat name) × At es (env.stat_entry name w).1
  pub reads :
      (n : ℕ) (es : List Entry) (w : W)
      → 0 < n
      → At es w
      → (rest : List Entry) × (es ≡ (env.read_some n w).0.0 ++ rest)
        × At rest (env.read_some n w).1
        × (is_read_fault (env.read_some n w).0.1 ≡ false)
        × (is_eof_error (env.read_some n w).0.1 ≡ true → rest ≡ [])
        × ((env.read_some n w).0.0 ≡ [] → rest ≡ [])
