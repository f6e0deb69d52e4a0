-- ===== src/Fsstat/Fake/Walked.antt =====
-- A directory of internal/fsstat/fake.go as the walk of internal/scan/walk.go reads it.
use directory_size_exporter.Base.{
  ℕ, zero, suc, ◌+◌, ◌-◌, ◌<◌, ◌≡◌, refl, sym, ap, ap₂, subst, ◌∙◌, inr, true, false, none, some,
  List, [], ◌∷◌, ◌++◌, str_eq, lt64, map, Str, if◌then◌else◌, length, drop, ltb, add64, arith,
}
use directory_size_exporter.Base.Dict.{lookup}
use directory_size_exporter.Fsstat.Fake.{FakeNode, FakeFs, FakeDir, no_mode}
use directory_size_exporter.Fsstat.Fake.Paths.{clean, path_join}
use directory_size_exporter.Fsstat.Fake.Handles.{
  open_dir, open_node, handle_of, error_at, entry_for, synthetic_name, name_at, entry_at,
  entries_from, total_of, status_of,
}
use directory_size_exporter.Fsstat.Fake.Served.{
  World, fake_env, hold, entries_from-append, unread, Serves, fake-Listing,
}
use directory_size_exporter.Scan.Target.{TargetScan, no_totals, flush, is_dir}
use directory_size_exporter.Scan.Walk.{Entry, DirRef, Pace, IsUnhurried, WalkConfig, process_dir}
use directory_size_exporter.Scan.Walk.Pass.{walk_entries}
use directory_size_exporter.Scan.Walk.Listing.{process_dir-walk_entries}
use directory_size_exporter.Targets.Paths.{sort_strings}

-- The synthetic entries from `i` on.
abbrev pub synthetic_entries : ℕ → ℕ → List Entry
synthetic_entries i zero = []
synthetic_entries i (suc n) =
    record { name = synthetic_name i; entry_type = no_mode } ∷ synthetic_entries (i + 1) n

-- What a directory lists: its names in an order, and then the synthetic entries.
abbrev pub listed : List (Str × FakeNode) → Str → List Str → ℕ → List Entry
listed nodes dir names synthetic = map (entry_for nodes dir) names ++ synthetic_entries 0 synthetic

drop-name_at :
    (i : ℕ) (names : List Str)
    → i < length names
    → drop i names ≡ name_at i names ∷ drop (i + 1) names
drop-name_at i [] h = absurd (omega (arith, h))
drop-name_at zero (name ∷ names) h = refl
drop-name_at (suc i) (name ∷ names) h =
    let e : suc i + 1 ≡ suc (i + 1) = omega arith in rw e (drop-name_at i names (omega (arith, h)))

drop_all : {A : Type 0} (xs : List A) → drop (length xs) xs ≡ []
drop_all [] = refl
drop_all (x ∷ xs) = drop_all xs

module _ (nodes : List (Str × FakeNode)) (d : FakeDir) where
  entry_at-stored :
      (i : ℕ) → i < length d.names → entry_at nodes d i ≡ entry_for nodes d.path (name_at i d.names)
  unfolding entry_at
  entry_at-stored i h = ground (arith, h)

  entry_at-synthetic :
      (i k : ℕ)
      → i ≡ length d.names + k
      → entry_at nodes d i ≡ record { name = synthetic_name k; entry_type = no_mode }
  unfolding entry_at
  entry_at-synthetic i k h =
      let e : ltb i (length d.names) ≡ false = ground (arith, h) in
      let e' : i - length d.names ≡ k = omega (arith, h) in rw (e, e') refl

  -- The stored names from `i` on.
  entries_from-names :
      (i n : ℕ)
      → i + n ≡ length d.names
      → entries_from nodes d i n ≡ map (entry_for nodes d.path) (drop i d.names)
  unfolding entries_from
  entries_from-names i zero h =
      let e : i ≡ length d.names = omega (arith, h) in
      sym (ap (map (entry_for nodes d.path)) (ap (λ j. drop j d.names) e ∙ drop_all d.names))
  entries_from-names i (suc n) h =
      let below : i < length d.names = omega (arith, h) in
      rw (drop-name_at i d.names below)
        (ap₂ ◌∷◌ (entry_at-stored i below) (entries_from-names (i + 1) n (omega (arith, h))))

  entries_from-synthetic :
      (i n k : ℕ) → i ≡ length d.names + k → entries_from nodes d i n ≡ synthetic_entries k n
  unfolding entries_from
  entries_from-synthetic i zero k h = refl
  entries_from-synthetic i (suc n) k h =
      ap₂ ◌∷◌ (entry_at-synthetic i k h)
        (entries_from-synthetic (i + 1) n (k + 1) (omega (arith, h)))

  -- An open directory of which nothing is read yet.
  unread-listed : d.cursor ≡ 0 → unread d nodes ≡ listed nodes d.path d.names d.synthetic
  unread-listed start =
      let n = length d.names in
      let e : total_of d - d.cursor ≡ n + d.synthetic = omega (arith, start) in
      ap₂ (entries_from nodes d) start e
      ∙ entries_from-append nodes d 0 n d.synthetic
      ∙ ap₂ ◌++◌ (entries_from-names 0 n (omega arith))
          (entries_from-synthetic (0 + n) d.synthetic 0 (omega arith))

-- The names of a node in the order of a read.
abbrev pub read_order : (ℕ → Str → List Str → List Str) → FakeFs → Str → List Str → List Str
read_order order f p names = if f.shuffle then order f.shuffle_seed p names else sort_strings names

-- The entries of the node at a path.
abbrev pub entries_of : (ℕ → Str → List Str → List Str) → FakeFs → Str → FakeNode → List Entry
entries_of order f p node =
    listed f.nodes (clean p) (read_order order f (clean p) node.children) node.synthetic

-- A path of the fake that can be opened and read: no hook and no error is set, and its node is a
-- directory.
pub record Readable (f : FakeFs) (p : Str) (node : FakeNode) : Type 0 where
  pub no_open_hook : f.before_open ≡ none
  pub no_read_hook : f.before_read ≡ none
  pub no_open_error : error_at (clean p) f.open_errs ≡ none
  pub there : lookup (clean p) f.nodes ≡ some node
  pub not_link : node.stat.mode.symlink ≡ false
  pub directory : is_dir node.stat ≡ true

module _ (order : ℕ → Str → List Str → List Str) (f : FakeFs) (p : Str) (node : FakeNode) where
  open_dir-unhooked : f.before_open ≡ none → open_dir order p f ≡ open_node order (clean p) f
  unfolding open_dir
  open_dir-unhooked h = ground (arith, h)

  open_dir-Readable :
      Readable f p node
      → (now high : ℕ) × (open_dir order p f ≡ (
        inr (handle_of order (clean p) f node),
        record f { open_dirs = now; max_open_dirs = high },
      ))
  unfolding open_node
  open_dir-Readable r =
      let now = add64 f.open_dirs 1 in
      (
        now,
        if lt64 f.max_open_dirs now then now else f.max_open_dirs,
        open_dir-unhooked r.no_open_hook
            ∙ ground (arith, r.no_open_error, r.there, r.not_link, r.directory),
      )

status_of-counted :
    (p name : Str) (now high : ℕ) (f : FakeFs)
    → status_of p (record f { open_dirs = now; max_open_dirs = high }) name ≡ status_of p f name
unfolding status_of
status_of-counted p name now high f = refl

-- A directory of the fake that can be opened and read is walked completely, in batches of any
-- positive size and in any order of its names, as long as its target is not abandoned, its context
-- does not end and the limiter grants its waits: with fuel above the number of its entries,
-- `processDir` returns, and its children and the target's new totals are those of one pass over the
-- stored entries, each with the type of its node, and the synthetic ones.
pub process_dir-fake :
    (order : ℕ → Str → List Str → List Str) (pace : Pace World) (f : FakeFs) (node : FakeNode)
    (cfg : WalkConfig) (ref : DirRef) (fuel : ℕ) (t : TargetScan) (d : FakeDir)
    → IsUnhurried pace
    → Readable f ref.path node
    → 0 < cfg.batch_size
    → t.abandoned ≡ false
    → length (entries_of order f ref.path node) < fuel
    → let (children, (totals, t')) =
        walk_entries cfg ref path_join
          (status_of (clean ref.path) f)
          (entries_of order f ref.path node)
          []
          (no_totals, t) in
      (w' : World) × (process_dir (fake_env order pace) cfg ref fuel t (d, f)
        ≡ some (
          children,
          (flush (record totals { dirs = add64 totals.dirs (length children) }) t', w'),
        ))
process_dir-fake order pace f node cfg ref fuel t d calm r pos free enough =
    let (now, high, e) = open_dir-Readable order f ref.path node r in
    let stat = status_of (clean ref.path) f in
    let es = entries_of order f ref.path node in
    let dir = handle_of order (clean ref.path) f node in
    let opened : (fake_env order pace).open_dir ref.path (d, f)
        ≡ (none, (dir, record f { open_dirs = now; max_open_dirs = high })) =
      ap (hold d) e in
    process_dir-walk_entries (fake_env order pace) cfg ref stat (Serves stat)
      (fake-Listing order stat pace calm) es fuel t (d, f) pos free enough (ap (λ r. r.0) opened)
      (subst (λ r. Serves stat es r.1) (sym opened)
        (record {
          opened = refl;
          unhooked = r.no_read_hook;
          left = sym (unread-listed f.nodes dir refl);
          answers = λ name. status_of-counted (clean ref.path) name now high f;
        }))
