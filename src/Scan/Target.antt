-- ===== src/Scan/Target.antt =====
-- internal/scan/target.go and the file status of internal/fsstat: one target's scan in flight, the
-- local totals of a directory, and the dedup of hard links. The atomic fields of a target are
-- updated by single operations, each one step here.
pub mod Laws
use directory_size_exporter.Base.{
  ℕ, ◌+◌, ◌-◌, ◌≡◌, ◌↔◌, refl, Bool, true, false, not, ◌&&◌, ◌||◌, Option, none, some, List, [],
  ◌∷◌, Str, Eq, if◌then◌else◌, ◌==◌, add64, sub64, nat_beq, leb, ltb, arith, length, is_pos64,
}
use directory_size_exporter.Base.Dict.{contains}
use directory_size_exporter.Scan.ErrClass.{Error, ErrorTally, no_errors, add_error, merge}

-- The type bits of an fs.FileMode: ModeDir, ModeSymlink, and any of the other type bits.
pub record FileMode : Type 0 where
  pub dir : Bool
  pub symlink : Bool
  pub other_type : Bool

-- fsstat.FileStat
pub record FileStat : Type 0 where
  pub size : ℕ
  pub alloc_bytes : ℕ
  pub dev : ℕ
  pub ino : ℕ
  pub nlink : ℕ
  pub mode : FileMode

abbrev pub is_dir : FileStat → Bool
is_dir st = st.mode.dir

-- A regular file has no type bit.
abbrev pub is_regular : FileStat → Bool
is_regular st = not (st.mode.dir || (st.mode.symlink || st.mode.other_type))

pub record InodeKey : Type 0 where
  pub dev : ℕ
  pub ino : ℕ

abbrev pub inode_beq : InodeKey → InodeKey → Bool
inode_beq a b = nat_beq a.dev b.dev && nat_beq a.ino b.ino

pub inode_beq_iff : (a b : InodeKey) → (inode_beq a b ≡ true) ↔ (a ≡ b)
inode_beq_iff a b = ground arith

instance abbrev pub inode_eq : Eq InodeKey
inode_eq = record { beq = inode_beq; beq_iff = inode_beq_iff }

pub record DirTotals : Type 0 where
  pub size : ℕ
  pub alloc : ℕ
  pub files : ℕ
  pub dirs : ℕ
  pub entries : ℕ
  pub stat_calls : ℕ
  pub vanished : ℕ
  pub skipped_xdev : ℕ
  pub hardlinked : ℕ
  pub dedup_saved : ℕ
  pub errors : ErrorTally

abbrev pub no_totals : DirTotals
no_totals = record {
  size = 0;
  alloc = 0;
  files = 0;
  dirs = 0;
  entries = 0;
  stat_calls = 0;
  vanished = 0;
  skipped_xdev = 0;
  hardlinked = 0;
  dedup_saved = 0;
  errors = no_errors;
}

-- `inodes` is the key set of the map; `done` says that the channel is closed. The context is the
-- environment's: its error is an argument of `stopping`.
pub record TargetScan : Type 0 where
  pub path : Str
  pub started_at : ℕ
  pub root_dev : ℕ
  pub has_root_dev : Bool
  pub size : ℕ
  pub alloc : ℕ
  pub files : ℕ
  pub dirs : ℕ
  pub entries : ℕ
  pub stat_calls : ℕ
  pub dirs_read : ℕ
  pub vanished : ℕ
  pub skipped_xdev : ℕ
  pub hardlinked : ℕ
  pub dedup_saved : ℕ
  pub errors : ErrorTally
  pub inodes : List InodeKey
  pub max_tracked : ℕ
  pub inodes_exhausted : Bool
  pub pending : ℕ
  pub done : Bool
  pub abandoned : Bool

-- `ctx_err` stands for `t.ctx != nil && t.ctx.Err() != nil`.
abbrev pub stopping : Bool → TargetScan → Bool
stopping ctx_err t = t.abandoned || ctx_err

unfoldable pub new_target_scan : Str → ℕ → ℕ → TargetScan
new_target_scan path started_at max_tracked = record {
  path = path;
  started_at = started_at;
  root_dev = 0;
  has_root_dev = false;
  size = 0;
  alloc = 0;
  files = 0;
  dirs = 0;
  entries = 0;
  stat_calls = 0;
  dirs_read = 0;
  vanished = 0;
  skipped_xdev = 0;
  hardlinked = 0;
  dedup_saved = 0;
  errors = no_errors;
  inodes = [];
  max_tracked = max_tracked;
  inodes_exhausted = false;
  pending = 0;
  done = false;
  abandoned = false;
}

unfoldable pub add_pending : ℕ → TargetScan → TargetScan
add_pending n t = record t { pending = add64 t.pending n }

-- `doneOnce.Do(close)`: closing a closed latch does nothing.
unfoldable pub finish : TargetScan → TargetScan
finish t = record t { done = true }

-- `abandon` (engine.go), less its log line.
unfoldable pub abandon : TargetScan → TargetScan
unfolding finish
abandon t = finish (record t { abandoned = true })

unfoldable pub complete_dir : TargetScan → TargetScan
unfolding finish
complete_dir t =
    let less = record t { pending = sub64 t.pending 1 } in
    if nat_beq less.pending 0 then finish less else less

-- `if totals.x != 0 { t.x.Add(totals.x) }`
abbrev pub add_nonzero : ℕ → ℕ → ℕ
add_nonzero total n = if nat_beq n 0 then total else add64 total n

unfoldable pub flush : DirTotals → TargetScan → TargetScan
flush totals t = record t {
  size = add_nonzero t.size totals.size;
  alloc = add_nonzero t.alloc totals.alloc;
  files = add_nonzero t.files totals.files;
  dirs = add_nonzero t.dirs totals.dirs;
  entries = add_nonzero t.entries totals.entries;
  stat_calls = add_nonzero t.stat_calls totals.stat_calls;
  vanished = add_nonzero t.vanished totals.vanished;
  skipped_xdev = add_nonzero t.skipped_xdev totals.skipped_xdev;
  hardlinked = add_nonzero t.hardlinked totals.hardlinked;
  dedup_saved = add_nonzero t.dedup_saved totals.dedup_saved;
  errors = if nat_beq totals.errors.total 0 then t.errors else merge totals.errors t.errors;
  dirs_read = add64 t.dirs_read 1;
}

-- The part of `shouldCount` under the lock: is the file new, and the target with its inode.
unfoldable pub track_inode : InodeKey → TargetScan → Bool × TargetScan
track_inode key t =
    if contains key t.inodes
    then (false, t)
    else if is_pos64 t.max_tracked && leb t.max_tracked (length t.inodes)
    then (true, record t { inodes_exhausted = true })
    else (true, record t { inodes = key ∷ t.inodes })

unfoldable pub should_count :
    FileStat → Bool → DirTotals → TargetScan → Bool × DirTotals × TargetScan
unfolding track_inode
should_count st dedup totals t =
    if not dedup || leb st.nlink 1
    then (true, totals, t)
    else let linked = record totals { hardlinked = add64 totals.hardlinked 1 } in
      let (fresh, t') = track_inode (record { dev = st.dev; ino = st.ino }) t in
      if fresh
      then (true, linked, t')
      else (false, record linked { dedup_saved = add64 linked.dedup_saved st.size }, t')

-- `recordError`
unfoldable pub record_error : Error → TargetScan → TargetScan
record_error err t = record t { errors = add_error (some err) t.errors }

-- The end of `processEntry` (walk.go), for a regular file.
unfoldable pub count_file : Bool → FileStat → DirTotals → TargetScan → DirTotals × TargetScan
unfolding should_count
count_file dedup st totals t =
    let (counts, totals', t') = should_count st dedup totals t in
    if counts
    then (
      record totals' {
        size = add64 totals'.size st.size;
        alloc = add64 totals'.alloc st.alloc_bytes;
        files = add64 totals'.files 1;
      },
      t',
    )
    else (totals', t')
