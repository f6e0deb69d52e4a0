-- ===== src/Fsstat/Fake.antt =====
-- internal/fsstat/fake.go: the filesystem in memory that the walk is exercised on. A path maps to a
-- node; a method is a function on the state, its lock one step. An installed hook is a function of the
-- path alone. A wrapped error is observed as the error inside it. A count of names is a plain number.
pub mod Paths
pub mod Handles
pub mod Served
pub mod Walked
pub mod Descriptors
pub mod Linked
pub mod Built
pub mod Nearest
use directory_size_exporter.Base.{
  ℕ, zero, suc, ◌+◌, ◌-◌, ◌*◌, ◌/◌, ◌%◌, ◌^◌, ◌⊎◌, inl, inr, Bool, true, false, not, ◌&&◌, ◌||◌,
  Option, none, some, List, [], ◌∷◌, ◌++◌, Str, str, str_eq, ◌==◌, if◌then◌else◌, length, add64,
  sub64, neg64, is_neg64, lt64, ltb, leb, nat_beq, take, drop,
}
use directory_size_exporter.Base.Dict.{lookup, insert, contains}
use directory_size_exporter.Config.Printed.{itoa}
use directory_size_exporter.Collector.Filesystem.{FsInfo}
use directory_size_exporter.Fsstat.{Capabilities}
use directory_size_exporter.Fsstat.Linux.{parent_of}
use directory_size_exporter.Fsstat.Fake.Paths.{clean, path_join, base_of, contains_separator}
use directory_size_exporter.Scan.ErrClass.{Error}
use directory_size_exporter.Scan.Target.{FileMode, FileStat}
use directory_size_exporter.Scan.Walk.{Entry}
use directory_size_exporter.Targets.Paths.{sort_strings}

-- `fakeNode`
pub record FakeNode : Type 0 where
  pub stat : FileStat
  pub children : List Str
  pub synthetic : ℕ
  pub synthetic_size : ℕ

-- `FakeFS`
pub record FakeFs : Type 0 where
  pub caps : Capabilities
  pub nodes : List (Str × FakeNode)
  pub infos : List (Str × FsInfo)
  pub open_errs : List (Str × Option Error)
  pub stat_errs : List (Str × Option Error)
  pub open_dirs : ℕ
  pub max_open_dirs : ℕ
  pub stat_calls : ℕ
  pub read_calls : ℕ
  pub non_bare_stat_names : List Str
  pub before_open : Option (Str → Option Error)
  pub before_read : Option (Str → Option Error)
  pub before_stat : Option (Str → Str → Option Error)
  pub shuffle_seed : ℕ
  pub shuffle : Bool

-- `fakeDir`, less the buffer that its reads return.
pub record FakeDir : Type 0 where
  pub path : Str
  pub names : List Str
  pub synthetic : ℕ
  pub cursor : ℕ
  pub closed : Bool

-- A value of Go's type FileStat that no call has filled.
abbrev pub no_mode : FileMode
no_mode = record { dir = false; symlink = false; other_type = false }

abbrev pub no_stat : FileStat
no_stat = record { size = 0; alloc_bytes = 0; dev = 0; ino = 0; nlink = 0; mode = no_mode }

abbrev pub dir_stat : FileStat
dir_stat = record no_stat { mode = record no_mode { dir = true } }

abbrev pub plain_node : FileStat → FakeNode
plain_node st = record { stat = st; children = []; synthetic = 0; synthetic_size = 0 }

-- `NewFake`
unfoldable pub new_fake : Capabilities → FakeFs
new_fake caps = record {
  caps = caps;
  nodes = (str "/", plain_node dir_stat) ∷ [];
  infos = [];
  open_errs = [];
  stat_errs = [];
  open_dirs = 0;
  max_open_dirs = 0;
  stat_calls = 0;
  read_calls = 0;
  non_bare_stat_names = [];
  before_open = none;
  before_read = none;
  before_stat = none;
  shuffle_seed = 0;
  shuffle = false;
}

-- The parent's node with the name of the child.
unfoldable pub list_child : Str → FakeNode → FakeNode
list_child name node =
    if contains name node.children
    then node
    else record node { children = node.children ++ name ∷ [] }

-- The node at a path, or a new directory.
abbrev pub node_or_dir : Str → List (Str × FakeNode) → FakeNode
node_or_dir p nodes = elim (lookup p nodes) [ none ↦ plain_node dir_stat | some node ↦ node ]

-- The loop of `addNodeLocked`, on the path of the child; the fuel bounds the depth.
unfoldable pub link_up : ℕ → Str → List (Str × FakeNode) → List (Str × FakeNode)
unfolding list_child
link_up zero child nodes = nodes
link_up (suc fuel) child nodes =
    let parent = parent_of child in
    let rest =
      link_up fuel parent
        (insert parent (list_child (base_of child) (node_or_dir parent nodes)) nodes) in
    if parent == child then nodes else rest

-- `addNodeLocked`
unfoldable pub add_node_locked : Str → FakeNode → FakeFs → FakeFs
unfolding link_up
add_node_locked p node f = record f {
  nodes = link_up (length (clean p) + 2) (clean p) (insert (clean p) node f.nodes);
}

-- `AddDir`
unfoldable pub add_dir : Str → FakeFs → FakeFs
unfolding add_node_locked
add_dir p f = add_node_locked p (plain_node dir_stat) f

-- `AddFileStat`
unfoldable pub add_file_stat : Str → FileStat → FakeFs → FakeFs
unfolding add_node_locked
add_file_stat p st f = add_node_locked p (plain_node st) f

-- `(size + 511) / 512 * 512` on int64, where a quotient is rounded towards 0.
unfoldable pub alloc_of : ℕ → ℕ
alloc_of size =
    let raised = add64 size 511 in
    if is_neg64 raised then neg64 (neg64 raised / 512 * 512) else raised / 512 * 512

abbrev pub file_stat : ℕ → FileStat
file_stat size = record no_stat { size = size; alloc_bytes = alloc_of size; nlink = 1 }

-- `AddFile`
unfoldable pub add_file : Str → ℕ → FakeFs → FakeFs
unfolding add_file_stat
add_file p size f = add_file_stat p (file_stat size) f

-- `AddSymlink`
unfoldable pub add_symlink : Str → FakeFs → FakeFs
unfolding add_node_locked
add_symlink p f =
    add_node_locked p (plain_node (record no_stat { mode = record no_mode { symlink = true } })) f

-- `AddSyntheticFiles`: the node is added where there is none, and then written through its pointer.
unfoldable pub add_synthetic_files : Str → ℕ → ℕ → FakeFs → FakeFs
unfolding add_node_locked
add_synthetic_files dir count size f =
    let here = lookup (clean dir) f.nodes in
    let added : FakeFs = elim here [
      | none ↦ add_node_locked dir (plain_node dir_stat) f
      | some _ ↦ f
    ] in
    let node = node_or_dir (clean dir) f.nodes in
    record added {
      nodes =
          insert (clean dir) (record node { synthetic = count; synthetic_size = size }) added.nodes;
    }

-- `SetOpenError`, `SetStatError`, `SetFSInfo`, `ShuffleReads`, and the three hooks.
unfoldable pub set_open_error : Str → Option Error → FakeFs → FakeFs
set_open_error p err f = record f { open_errs = insert (clean p) err f.open_errs }

unfoldable pub set_stat_error : Str → Option Error → FakeFs → FakeFs
set_stat_error p err f = record f { stat_errs = insert (clean p) err f.stat_errs }

unfoldable pub set_fs_info : Str → FsInfo → FakeFs → FakeFs
set_fs_info p info f = record f { infos = insert (clean p) info f.infos }

unfoldable pub shuffle_reads : ℕ → FakeFs → FakeFs
shuffle_reads seed f = record f { shuffle = true; shuffle_seed = seed }

unfoldable pub install_before_open : Option (Str → Option Error) → FakeFs → FakeFs
install_before_open hook f = record f { before_open = hook }

unfoldable pub install_before_read : Option (Str → Option Error) → FakeFs → FakeFs
install_before_read hook f = record f { before_read = hook }

unfoldable pub install_before_stat : Option (Str → Str → Option Error) → FakeFs → FakeFs
install_before_stat hook f = record f { before_stat = hook }
