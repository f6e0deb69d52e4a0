-- ===== src/Fsstat/System/Walked.antt =====
-- The walk of a directory of the host (internal/fsstat/fsstat_linux.go,
-- internal/fsstat/fsstat_windows.go).
use directory_size_exporter.Base.{
  ℕ, ◌<◌, ◌≡◌, refl, sym, ap, subst, true, false, Option, none, some, List, [], Str, add64, length,
  arith,
}
use directory_size_exporter.Fsstat.System.{Os, SystemDir, linux_open_dir, windows_open_dir}
use directory_size_exporter.Scan.ErrClass.{Error}
use directory_size_exporter.Scan.Target.{FileStat, TargetScan, no_totals, flush}
use directory_size_exporter.Scan.Walk.{Entry, DirRef, Pace, IsUnhurried, WalkConfig, process_dir}
use directory_size_exporter.Scan.Walk.Pass.{walk_entries}
use directory_size_exporter.Scan.Walk.Listing.{process_dir-walk_entries}
use directory_size_exporter.Fsstat.System.Still.{
  ReadsStill, StatsStill, Reading, linux_env, windows_env, linux_status, windows_status,
  linux-Listing, windows-Listing,
}

linux_opened :
    {H : Type 0} (os : Os H) (path : Str) (d : SystemDir H)
    → (os.open_path path d.host).0 ≡ none
    → linux_open_dir os path d
      ≡ (none, record { path = path; has_file = true; host = (os.open_path path d.host).1 })
unfolding linux_open_dir
linux_opened os path d fine = ground (arith, fine)

windows_opened :
    {H : Type 0} (os : Os H) (path : Str) (d : SystemDir H)
    → let ((missing, info), h) = os.lstat_info path d.host in
      missing ≡ none
      → info.mode.symlink ≡ false
      → info.mode.dir ≡ true
      → (os.open_path path h).0 ≡ none
      → windows_open_dir os path d
        ≡ (none, record { path = path; has_file = true; host = (os.open_path path h).1 })
unfolding windows_open_dir
windows_opened os path d there other dir fine = ground (arith, there, other, dir, fine)

-- On Linux, a directory that opens, whose reads do what package os documents and whose stats always
-- answer the same, is walked completely, as long as its target is not abandoned, its context does not
-- end and the limiter grants its waits: with fuel above the number of its entries, `processDir`
-- returns, and its children and the target's new totals are those of one pass over all the entries,
-- each with the status that `fillFileStat` makes of its stat.
pub process_dir-linux :
    {H : Type 0} (os : Os H) (join : Str → Str → Str) (pace : Pace (SystemDir H))
    (At : List Entry → H → Type 0) (stat : Str → Option Error × FileStat)
    → IsUnhurried pace
    → ReadsStill os At
    → StatsStill (linux_status os) stat At
    → (cfg : WalkConfig) (ref : DirRef) (es : List Entry) (fuel : ℕ) (t : TargetScan)
      (d : SystemDir H)
    → 0 < cfg.batch_size
    → t.abandoned ≡ false
    → length es < fuel
    → (os.open_path ref.path d.host).0 ≡ none
    → At es (os.open_path ref.path d.host).1
    → let (children, (totals, t')) = walk_entries cfg ref join stat es [] (no_totals, t) in
      (d' : SystemDir H) × (process_dir (linux_env os join pace) cfg ref fuel t d
        ≡ some (
          children,
          (flush (record totals { dirs = add64 totals.dirs (length children) }) t', d'),
        ))
process_dir-linux os join pace At stat calm still same cfg ref es fuel t d pos free enough fine at =
    let opened = linux_opened os ref.path d fine in
    process_dir-walk_entries (linux_env os join pace) cfg ref stat (Reading At ref.path)
      (linux-Listing os join At still ref.path stat pace calm same) es fuel t d pos free enough
      (ap (λ r. r.0) opened)
      (subst (λ r. Reading At ref.path es r.1) (sym opened)
        (record { file = refl; same_path = refl; left = at }))

-- The same on Windows, for a directory that is no reparse point, with the status that
-- `fillFromFileInfo` makes of the Lstat of the joined path.
pub process_dir-windows :
    {H : Type 0} (os : Os H) (join : Str → Str → Str) (pace : Pace (SystemDir H))
    (At : List Entry → H → Type 0) (stat : Str → Option Error × FileStat) (cfg : WalkConfig)
    (ref : DirRef)
    → IsUnhurried pace
    → ReadsStill os At
    → StatsStill (windows_status os join ref.path) stat At
    → (es : List Entry) (fuel : ℕ) (t : TargetScan) (d : SystemDir H) → 0 < cfg.batch_size
    → t.abandoned ≡ false
    → length es < fuel
    → let ((missing, info), h) = os.lstat_info ref.path d.host in
      ((missing ≡ none) × (info.mode.symlink ≡ false) × (info.mode.dir ≡ true))
      → (os.open_path ref.path (os.lstat_info ref.path d.host).1).0 ≡ none
      → At es (os.open_path ref.path (os.lstat_info ref.path d.host).1).1
      → let (children, (totals, t')) = walk_entries cfg ref join stat es [] (no_totals, t) in
        (d' : SystemDir H) × (process_dir (windows_env os join pace) cfg ref fuel t d
          ≡ some (
            children,
            (flush (record totals { dirs = add64 totals.dirs (length children) }) t', d'),
          ))
process_dir-windows os join pace At stat cfg ref calm still same es fuel t d pos free enough dir
      fine at =
    let opened = windows_opened os ref.path d dir.0 dir.1 dir.2 fine in
    process_dir-walk_entries (windows_env os join pace) cfg ref stat (Reading At ref.path)
      (windows-Listing os join At still ref.path stat pace calm same) es fuel t d pos free enough
      (ap (λ r. r.0) opened)
      (subst (λ r. Reading At ref.path es r.1) (sym opened)
        (record { file = refl; same_path = refl; left = at }))
