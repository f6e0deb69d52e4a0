-- ===== src/Scan/Launch.antt =====
-- The loop of `ScanAll` over the targets (internal/scan/engine.go): the root of each is prepared, and
-- queued unless it is refused. What the loop sends to the sink, and the supervisors that it starts, are
-- in Scan.Engine. The targets are numbered in order, and `now` is the time of them all.
pub mod Measured
use directory_size_exporter.Base.{ℕ, suc, ◌+◌, Bool, Option, none, some, List, [], ◌∷◌, Str}
use directory_size_exporter.Base.Family.{change}
use directory_size_exporter.State.{Outcome}
use directory_size_exporter.Scan.ErrClass.{Error}
use directory_size_exporter.Scan.Target.{FileStat, TargetScan, new_target_scan, add_pending}
use directory_size_exporter.Scan.Walk.{DirRef}
use directory_size_exporter.Scan.Pool.{Pool, push_shared}
use directory_size_exporter.Scan.Latch.{WorkRef}
use directory_size_exporter.Scan.Engine.{prepare_root}
use directory_size_exporter.Scan.Worker.{owned_by}

-- The pool and the targets, and the outcomes of those that are refused at once, the last one first.
pub record Launched : Type 0 where
  pub pool : Pool WorkRef
  pub targets : ℕ → TargetScan
  pub refused : List (ℕ × Outcome)

abbrev pub root_ref : Str → DirRef
root_ref path = record { path = path; depth = 0 }

-- `has_inodes` says that the platform has CapInode, and `lstat` what the filesystem answers.
module _ (has_inodes : Bool) (lstat : Str → Option Error × FileStat) (now max_tracked : ℕ) where
  -- `prepareRoot` of a new target.
  abbrev pub prepared : Str → Option Outcome × TargetScan
  prepared path =
      prepare_root has_inodes (lstat path).0 (lstat path).1 (new_target_scan path now max_tracked)

  abbrev pub admit_root : ℕ → Str → Option Outcome × TargetScan → Launched → Launched
  admit_root o path (some outcome, t) l = record l {
    targets = change o t l.targets;
    refused = (o, outcome) ∷ l.refused;
  }
  admit_root o path (none, t) l = record l {
    pool = push_shared (owned_by o (root_ref path) ∷ []) l.pool;
    targets = change o (add_pending 1 t) l.targets;
  }

  unfoldable pub launch : ℕ → List Str → Launched → Launched
  launch o [] l = l
  launch o (path ∷ paths) l = launch (suc o) paths (admit_root o path (prepared path) l)
