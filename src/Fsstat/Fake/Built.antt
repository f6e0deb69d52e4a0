-- ===== src/Fsstat/Fake/Built.antt =====
-- How a fake is built (internal/fsstat/fake.go), and what is found in it then.
use directory_size_exporter.Base.{
  ℕ, zero, suc, ◌+◌, ◌≤◌, ◌≡◌, ◌≢◌, ◌⊎◌, inl, inr, refl, sym, ap, ap₂, subst, ◌∙◌, true, false,
  Option, none, some, Str, str, str_eq, str_beq_iff, ◌==◌, length, arith, Bool-cases, Option-cases,
}
use directory_size_exporter.Base.Dict.{lookup, insert, lookup-insert_self, lookup-insert_ne}
use directory_size_exporter.Collector.Filesystem.{FsInfo}
use directory_size_exporter.Fsstat.{Capabilities}
use directory_size_exporter.Fsstat.Linux.{parent_of}
use directory_size_exporter.Fsstat.Linux.Mountpoint.{parent-cases, top_is_own_parent}
use directory_size_exporter.Fsstat.Fake.{
  FakeNode, FakeFs, plain_node, dir_stat, list_child, node_or_dir, link_up, add_node_locked,
  new_fake, add_dir, add_file, add_file_stat, file_stat, add_symlink, add_synthetic_files,
  set_open_error, set_stat_error, set_fs_info, shuffle_reads, install_before_open,
  install_before_read, install_before_stat,
}
use directory_size_exporter.Fsstat.Fake.Paths.{clean, base_of}
use directory_size_exporter.Fsstat.Fake.Handles.{lstat, error_at, node_stat}
use directory_size_exporter.Fsstat.Fake.Linked.{
  Nodes, Linked, Covers, insert-Linked, new_fake-Linked, add_node_locked-Linked,
}
use directory_size_exporter.Scan.ErrClass.{Error}

abbrev IsTop : Str → Type 0
IsTop k = (k ≡ str ".") ⊎ (k ≡ str "/")

-- The parent of a path that is no longer than `k`, where it is another one, is not `k`.
parent-ne :
    (k child : Str)
    → ¬ IsTop k
    → IsTop child ⊎ (length child ≤ length k)
    → parent_of child ≢ child
    → (parent_of child ≢ k) × (IsTop (parent_of child) ⊎ (length (parent_of child) ≤ length k))
parent-ne k child low (inl top) up = absurd (up (top_is_own_parent child top))
parent-ne k child low (inr short) up = elim (parent-cases child) [
  | inl dot ↦ (λ e. low (inl (sym e ∙ dot)), inl (inl dot))
  | inr (inl root) ↦ (λ e. low (inr (sym e ∙ root)), inl (inr root))
  | inr (inr shorter) ↦ (
    λ e. absurd (omega (arith, ap length e, shorter, short)),
    inr (omega (arith, short, shorter)),
  )
]

-- Linking a path writes to no path that is as long or longer.
link_up-lookup :
    (fuel : ℕ) (k child : Str) (nodes : Nodes)
    → ¬ IsTop k
    → IsTop child ⊎ (length child ≤ length k)
    → lookup k (link_up fuel child nodes) ≡ lookup k nodes
unfolding link_up
link_up-lookup zero k child nodes low short = refl
link_up-lookup (suc fuel) k child nodes low short = elim (Bool-cases (parent_of child == child)) [
  | inl top ↦ rw top refl
  | inr more ↦
      let (distinct, short') =
        parent-ne k child low short
          (λ e. absurd (ground (arith, more, e, str_beq_iff (parent_of child) child))) in
      rw more (
        link_up-lookup fuel k (parent_of child) _ low short'
        ∙ lookup-insert_ne (parent_of child) k
            (list_child (base_of child) (node_or_dir (parent_of child) nodes)) nodes distinct)
]

link_up-top : (fuel : ℕ) (k : Str) (nodes : Nodes) → IsTop k → link_up fuel k nodes ≡ nodes
unfolding link_up
link_up-top zero k nodes top = refl
link_up-top (suc fuel) k nodes top =
    let e : (parent_of k == k) ≡ true = (str_beq_iff (parent_of k) k).1 (top_is_own_parent k top) in
    rw e refl

IsTop-cases : (k : Str) → IsTop k ⊎ ¬ IsTop k
IsTop-cases k = elim (Bool-cases (k == str ".")) [
  | inl dot ↦ inl (inl ((str_beq_iff k (str ".")).0 dot))
  | inr below ↦ elim (Bool-cases (k == str "/")) [
    | inl root ↦ inl (inr ((str_beq_iff k (str "/")).0 root))
    | inr within ↦ inr (λ top. absurd (not_top below within top))
  ]
]
  where
    not_top : (k == str ".") ≡ false → (k == str "/") ≡ false → IsTop k → ⊥
    not_top below within (inl dot) = absurd (ground (arith, below, (str_beq_iff k (str ".")).1 dot))
    not_top below within (inr root) =
        absurd (ground (arith, within, (str_beq_iff k (str "/")).1 root))

-- The node that is added at a path is the one found there, whatever was there before: none of its
-- children, nor anything else of an older node, is left.
pub lookup-add_node_locked :
    (p : Str) (node : FakeNode) (f : FakeFs)
    → lookup (clean p) (add_node_locked p node f).nodes ≡ some node
unfolding add_node_locked
lookup-add_node_locked p node f =
    let k = clean p in
    let written : lookup k (insert k node f.nodes) ≡ some node =
      lookup-insert_self k node f.nodes in
    elim (IsTop-cases k) [
      | inl top ↦ ap (lookup k) (link_up-top (length k + 2) k (insert k node f.nodes) top) ∙ written
      | inr low ↦
          link_up-lookup (length k + 2) k k (insert k node f.nodes) low (inr (omega arith))
          ∙ written
    ]

-- A fake that is built from an empty one: files and links are added at new paths, and so are
-- directories; synthetic files go to any directory; hooks, errors, filesystems and the order of reads
-- are set at any time.
pub data Builds : FakeFs → Type 0 where
  started : (caps : Capabilities) → Builds (new_fake caps)
  dir : {f : FakeFs} (p : Str) → lookup (clean p) f.nodes ≡ none → Builds f → Builds (add_dir p f)
  file :
      {f : FakeFs} (p : Str) (size : ℕ)
      → lookup (clean p) f.nodes ≡ none
      → Builds f
      → Builds (add_file p size f)
  link :
      {f : FakeFs} (p : Str) → lookup (clean p) f.nodes ≡ none → Builds f → Builds (add_symlink p f)
  many :
      {f : FakeFs} (p : Str) (count size : ℕ)
      → Builds f
      → Builds (add_synthetic_files p count size f)
  open_error :
      {f : FakeFs} (p : Str) (err : Option Error) → Builds f → Builds (set_open_error p err f)
  stat_error :
      {f : FakeFs} (p : Str) (err : Option Error) → Builds f → Builds (set_stat_error p err f)
  fs_info : {f : FakeFs} (p : Str) (info : FsInfo) → Builds f → Builds (set_fs_info p info f)
  shuffled : {f : FakeFs} (seed : ℕ) → Builds f → Builds (shuffle_reads seed f)
  open_hook :
      {f : FakeFs} (hook : Option (Str → Option Error))
      → Builds f
      → Builds (install_before_open hook f)
  read_hook :
      {f : FakeFs} (hook : Option (Str → Option Error))
      → Builds f
      → Builds (install_before_read hook f)
  stat_hook :
      {f : FakeFs} (hook : Option (Str → Str → Option Error))
      → Builds f
      → Builds (install_before_stat hook f)

fresh-Covers :
    (nodes : Nodes) (p : Str) (node : FakeNode) → lookup p nodes ≡ none → Covers nodes p node
fresh-Covers nodes p node fresh old there name h = absurd (ground (arith, fresh, there))

-- The node with synthetic files.
abbrev with_files : ℕ → ℕ → FakeNode → FakeNode
with_files count size node = record node { synthetic = count; synthetic_size = size }

module _ (p : Str) (count size : ℕ) (f : FakeFs) where
  abbrev nodes_with_files : Nodes
  nodes_with_files = (add_synthetic_files p count size f).nodes

  new_directory :
      lookup (clean p) f.nodes ≡ none
      → nodes_with_files
        ≡ insert
            (clean p)
            (with_files count size (plain_node dir_stat))
            (add_node_locked p (plain_node dir_stat) f).nodes
  unfolding add_synthetic_files
  new_directory new = ground (arith, new)

  old_directory :
      (node : FakeNode)
      → lookup (clean p) f.nodes ≡ some node
      → nodes_with_files ≡ insert (clean p) (with_files count size node) f.nodes
  unfolding add_synthetic_files
  old_directory node here = ground (arith, here)

  same_children-Covers :
      (nodes : Nodes) (node : FakeNode)
      → lookup (clean p) nodes ≡ some node
      → Covers nodes (clean p) (with_files count size node)
  same_children-Covers nodes node here old there name h = ground (arith, here, there, h)

  add_synthetic_files-Linked : Linked f.nodes → Linked nodes_with_files
  add_synthetic_files-Linked linked = elim (Option-cases (lookup (clean p) f.nodes)) [
    | inl new ↦
        let added = (add_node_locked p (plain_node dir_stat) f).nodes in
        let here = lookup-add_node_locked p (plain_node dir_stat) f in
        subst Linked (sym (new_directory new)) (
          insert-Linked added (clean p) (plain_node dir_stat) _ here
            (same_children-Covers added (plain_node dir_stat) here)
            (add_node_locked-Linked p (plain_node dir_stat) f
              (fresh-Covers f.nodes (clean p) (plain_node dir_stat) new) linked))
    | inr (node, here) ↦ subst Linked (sym (old_directory node here)) (
        insert-Linked f.nodes (clean p) node _ here (same_children-Covers f.nodes node here) linked)
  ]

added-Linked :
    (p : Str) (node : FakeNode) (f : FakeFs)
    → lookup (clean p) f.nodes ≡ none
    → Linked f.nodes
    → Linked (add_node_locked p node f).nodes
added-Linked p node f new linked =
    add_node_locked-Linked p node f (fresh-Covers f.nodes (clean p) node new) linked

-- In a fake that is built so, every node but those that are their own parents is listed by the node of
-- its parent, the ancestors that were created on the way included.
pub Builds-Linked : (f : FakeFs) → Builds f → Linked f.nodes
unfolding add_dir add_file add_file_stat add_symlink set_open_error set_stat_error set_fs_info
    shuffle_reads install_before_open install_before_read install_before_stat
Builds-Linked _ (started caps) = new_fake-Linked caps
Builds-Linked _ (dir {f} p new b) = added-Linked p _ f new (Builds-Linked f b)
Builds-Linked _ (file {f} p size new b) = added-Linked p _ f new (Builds-Linked f b)
Builds-Linked _ (link {f} p new b) = added-Linked p _ f new (Builds-Linked f b)
Builds-Linked _ (many {f} p count size b) =
    add_synthetic_files-Linked p count size f (Builds-Linked f b)
Builds-Linked _ (open_error {f} p err b) = Builds-Linked f b
Builds-Linked _ (stat_error {f} p err b) = Builds-Linked f b
Builds-Linked _ (fs_info {f} p info b) = Builds-Linked f b
Builds-Linked _ (shuffled {f} seed b) = Builds-Linked f b
Builds-Linked _ (open_hook {f} hook b) = Builds-Linked f b
Builds-Linked _ (read_hook {f} hook b) = Builds-Linked f b
Builds-Linked _ (stat_hook {f} hook b) = Builds-Linked f b

stat_errs-add_node_locked :
    (p : Str) (node : FakeNode) (f : FakeFs)
    → error_at (clean p) f.stat_errs ≡ none
    → error_at (clean p) (add_node_locked p node f).stat_errs ≡ none
unfolding add_node_locked
stat_errs-add_node_locked p node f fine = fine

-- A file that is added where no error is set is found by `Lstat` with its size, its allocation rounded
-- up and one link, whatever was at the path before.
pub lstat-add_file :
    (p : Str) (size : ℕ) (f : FakeFs)
    → error_at (clean p) f.stat_errs ≡ none
    → lstat p (add_file p size f) ≡ (none, file_stat size)
unfolding lstat add_file add_file_stat
lstat-add_file p size f fine =
    ap₂ node_stat (stat_errs-add_node_locked p (plain_node (file_stat size)) f fine)
      (lookup-add_node_locked p (plain_node (file_stat size)) f)
