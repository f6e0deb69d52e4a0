-- ===== src/Fsstat/Fake/Handles.antt =====
-- The methods of FakeFS and of an open directory (internal/fsstat/fake.go) that the walk calls.
use directory_size_exporter.Base.{
  ℕ, zero, suc, ◌+◌, ◌-◌, ◌⊎◌, inl, inr, true, false, not, Option, none, some, List, [], ◌∷◌, ◌++◌,
  Str, str, str_eq, ◌==◌, if◌then◌else◌, length, add64, sub64, lt64, ltb, leb,
}
use directory_size_exporter.Base.Dict.{lookup}
use directory_size_exporter.Config.Printed.{itoa}
use directory_size_exporter.Collector.Filesystem.{FsInfo}
use directory_size_exporter.Fsstat.Linux.{parent_of}
use directory_size_exporter.Fsstat.Fake.{FakeNode, FakeFs, FakeDir, no_stat, no_mode, file_stat}
use directory_size_exporter.Fsstat.Fake.Paths.{clean, path_join, contains_separator}
use directory_size_exporter.Scan.ErrClass.{Error}
use directory_size_exporter.Scan.Target.{FileStat, is_dir}
use directory_size_exporter.Scan.Walk.{Entry}
use directory_size_exporter.Targets.Paths.{sort_strings}

-- The sentinels of the packages io and io/fs: fs.ErrNotExist, io.EOF, and those (fs.ErrInvalid,
-- fs.ErrClosed) that no test of the source is about.
abbrev pub err_other : Error
err_other = record { is_permission = false; is_not_exist = false; is_eof = false; errno = none }

abbrev pub err_not_exist : Error
err_not_exist = record err_other { is_not_exist = true }

abbrev pub err_eof : Error
err_eof = record err_other { is_eof = true }

-- `m[p]`, nil where it is absent.
abbrev pub error_at : Str → List (Str × Option Error) → Option Error
error_at p errs = elim (lookup p errs) [ none ↦ none | some err ↦ err ]

-- `if hook != nil { hook(p) }`
abbrev pub call_hook : Option (Str → Option Error) → Str → Option Error
call_hook none p = none
call_hook (some hook) p = hook p

-- The handle of a node that is opened at a clean path; `order` stands for the shuffle of math/rand,
-- from its seed, the path that is hashed into it, and the names.
abbrev pub handle_of : (ℕ → Str → List Str → List Str) → Str → FakeFs → FakeNode → FakeDir
handle_of order p f node = record {
  path = p;
  names = if f.shuffle then order f.shuffle_seed p node.children else sort_strings node.children;
  synthetic = node.synthetic;
  cursor = 0;
  closed = false;
}

-- `OpenDir` from its second locked part on, at a clean path.
unfoldable pub open_node :
    (ℕ → Str → List Str → List Str) → Str → FakeFs → (Error ⊎ FakeDir) × FakeFs
open_node order p f = elim (error_at p f.open_errs) [
  | some err ↦ (inl err, f)
  | none ↦ elim (lookup p f.nodes) [
    | none ↦ (inl err_not_exist, f)
    | some node ↦
        if node.stat.mode.symlink
        then (inl err_other, f)
        else if not (is_dir node.stat)
        then (inl err_other, f)
        else let opened = add64 f.open_dirs 1 in
          (
            inr (handle_of order p f node),
            record f {
              open_dirs = opened;
              max_open_dirs = if lt64 f.max_open_dirs opened then opened else f.max_open_dirs;
            },
          )
  ]
]

-- `OpenDir`
unfoldable pub open_dir :
    (ℕ → Str → List Str → List Str) → Str → FakeFs → (Error ⊎ FakeDir) × FakeFs
unfolding open_node
open_dir order p f = elim (call_hook f.before_open (clean p)) [
  | some err ↦ (inl err, f)
  | none ↦ open_node order (clean p) f
]

-- The answer of a stat: its error, or the status of the node.
abbrev pub node_stat : Option Error → Option FakeNode → Option Error × FileStat
node_stat (some err) _ = (some err, no_stat)
node_stat none none = (some err_not_exist, no_stat)
node_stat none (some node) = (none, node.stat)

-- `Lstat`; a status that is not filled stays empty.
unfoldable pub lstat : Str → FakeFs → Option Error × FileStat
lstat p f = node_stat (error_at (clean p) f.stat_errs) (lookup (clean p) f.nodes)

-- The loop of `StatFS`; `none` says that no filesystem is found.
unfoldable pub search_info : ℕ → List (Str × FsInfo) → Str → Option FsInfo
search_info zero infos current = none
search_info (suc fuel) infos current =
    let rest = search_info fuel infos (parent_of current) in
    elim (lookup current infos) [
      | some info ↦ some info
      | none ↦ if parent_of current == current then none else rest
    ]

-- `StatFS`; `none` is fs.ErrNotExist.
unfoldable pub stat_fs : Str → FakeFs → Option FsInfo
unfolding search_info
stat_fs p f = search_info (length (clean p) + 2) f.infos (clean p)

-- `Close`
unfoldable pub close_handle : FakeDir → FakeFs → FakeDir × FakeFs
close_handle d f =
    if d.closed
    then (d, f)
    else (record d { closed = true }, record f { open_dirs = sub64 f.open_dirs 1 })

-- `entryFor`
unfoldable pub entry_for : List (Str × FakeNode) → Str → Str → Entry
entry_for nodes dir name = elim (lookup (path_join dir name) nodes) [
  | none ↦ record { name = name; entry_type = no_mode }
  | some node ↦ record { name = name; entry_type = node.stat.mode }
]

-- `fmt.Sprintf("synthetic-%08d", i)`
abbrev zeros : ℕ → Str
zeros zero = []
zeros (suc n) = 48 ∷ zeros n

unfoldable pub synthetic_name : ℕ → Str
synthetic_name i = let digits = itoa i in str "synthetic-" ++ (zeros (8 - length digits) ++ digits)

-- The name at a place, "" where there is none.
abbrev pub name_at : ℕ → List Str → Str
name_at i [] = []
name_at zero (name ∷ names) = name
name_at (suc i) (name ∷ names) = name_at i names

-- The entry that the loop of `ReadSome` appends at `i`.
unfoldable pub entry_at : List (Str × FakeNode) → FakeDir → ℕ → Entry
entry_at nodes d i =
    if ltb i (length d.names)
    then entry_for nodes d.path (name_at i d.names)
    else record { name = synthetic_name (i - length d.names); entry_type = no_mode }

-- So many entries from `i` on.
unfoldable pub entries_from : List (Str × FakeNode) → FakeDir → ℕ → ℕ → List Entry
entries_from nodes d i zero = []
entries_from nodes d i (suc count) = entry_at nodes d i ∷ entries_from nodes d (i + 1) count

abbrev pub total_of : FakeDir → ℕ
total_of d = length d.names + d.synthetic

-- `ReadSome` of an open directory, after its hook.
unfoldable pub read_batch :
    ℕ → FakeDir → List (Str × FakeNode) → (List Entry × Option Error) × FakeDir
read_batch n d nodes =
    if leb (total_of d) d.cursor
    then (([], some err_eof), d)
    else let end = if ltb (total_of d) (d.cursor + n) then total_of d else d.cursor + n in
      ((entries_from nodes d d.cursor (end - d.cursor), none), record d { cursor = end })

-- `ReadSome`
unfoldable pub read_some : ℕ → FakeDir × FakeFs → (List Entry × Option Error) × (FakeDir × FakeFs)
unfolding read_batch
read_some n (d, f) =
    if d.closed
    then (([], some err_other), (d, f))
    else let counted = record f { read_calls = add64 f.read_calls 1 } in
      elim (call_hook f.before_read d.path) [
        | some err ↦ (([], some err), (d, counted))
        | none ↦ let (answer, d') = read_batch n d f.nodes in (answer, (d', counted))
      ]

-- The end of `StatEntry`, where a name without a node has the status of a synthetic file.
unfoldable pub stat_at : List (Str × FakeNode) → Str → Str → Option Error × FileStat
stat_at nodes dir full = elim (lookup full nodes) [
  | some node ↦ (none, node.stat)
  | none ↦ elim (lookup dir nodes) [
    | none ↦ (some err_not_exist, no_stat)
    | some parent ↦
        if ltb 0 parent.synthetic
        then (none, file_stat parent.synthetic_size)
        else (some err_not_exist, no_stat)
  ]
]

-- `StatEntry` below its counters.
unfoldable pub status_of : Str → FakeFs → Str → Option Error × FileStat
unfolding stat_at
status_of dir f name =
    let refused : Option Error = elim f.before_stat [ none ↦ none | some hook ↦ hook dir name ] in
    elim refused [
      | some err ↦ (some err, no_stat)
      | none ↦ elim (error_at (path_join dir name) f.stat_errs) [
        | some err ↦ (some err, no_stat)
        | none ↦ stat_at f.nodes dir (path_join dir name)
      ]
    ]

-- `StatEntry`
unfoldable pub stat_entry : Str → FakeDir × FakeFs → (Option Error × FileStat) × (FakeDir × FakeFs)
unfolding status_of
stat_entry name (d, f) = if d.closed then ((some err_other, no_stat), (d, f)) else (
  status_of d.path f name,
  (
    d,
    record f {
      stat_calls = add64 f.stat_calls 1;
      non_bare_stat_names =
          if contains_separator name
          then f.non_bare_stat_names ++ name ∷ []
          else f.non_bare_stat_names;
    },
  ),
)
