-- ===== src/Fsstat/Fake/Descriptors.antt =====
-- The open directories of internal/fsstat/fake.go during a walk, whatever the context and the limiter do.
use directory_size_exporter.Base.{
  ℕ, ◌+◌, ◌-◌, ◌^◌, ◌≤◌, ◌<◌, ◌≡◌, ◌⊎◌, refl, sym, ap, subst, true, false, some, List, Str, inl,
  inr, if◌then◌else◌, add64, lt64, arith, Bool-cases, Option-cases, length, nat_beq, str_eq,
}
use directory_size_exporter.Base.Dict.{lookup}
use directory_size_exporter.Fsstat.Fake.{FakeFs, FakeDir}
use directory_size_exporter.Fsstat.Fake.Paths.{clean}
use directory_size_exporter.Fsstat.Fake.Handles.{
  open_dir, open_node, close_handle, read_some, read_batch, stat_entry, total_of, call_hook,
  handle_of, error_at, err_not_exist, err_other,
}
use directory_size_exporter.Fsstat.Fake.Served.{World, fake_env, hold}
use directory_size_exporter.Scan.Target.{TargetScan, is_dir}
use directory_size_exporter.Scan.ErrClass.{Error}
use directory_size_exporter.Scan.Walk.{
  DirRef, Pace, WalkConfig, process_dir, is_read_fault, is_failed,
}
use directory_size_exporter.Scan.Walk.Ends.{Shrinks, process_dir-Keeps}

-- `k` directories are open apart from that of the handle, and at most `m` ever were.
abbrev Balanced : ℕ → ℕ → World → Type 0
Balanced k m (d, f) = (f.open_dirs ≡ (if d.closed then k else k + 1)) × (f.max_open_dirs ≡ m)

abbrev left_of : World → ℕ
left_of (d, f) = total_of d - d.cursor

module _ (order : ℕ → Str → List Str → List Str) (k m : ℕ) where
  read_some-Balanced :
      (n : ℕ) (w : World)
      → 0 < n
      → Balanced k m w
      → Balanced k m (read_some n w).1
        × (is_read_fault (read_some n w).0.1 ≡ false
            → nat_beq (length (read_some n w).0.0) 0 ≡ false
            → left_of (read_some n w).1 < left_of w)
  unfolding read_some read_batch
  read_some-Balanced n (d, f) pos b = ground arith

  stat_entry-Balanced :
      (name : Str) (w : World)
      → Balanced k m w
      → Balanced k m (stat_entry name w).1 × (left_of (stat_entry name w).1 ≤ left_of w)
  unfolding stat_entry
  stat_entry-Balanced name (d, f) b = ground arith

  fake-Shrinks : (pace : Pace World) → Shrinks (fake_env order pace) (Balanced k m) left_of
  fake-Shrinks pace = record {
    not_late = λ w b. (b, omega arith);
    tokens = λ n w b. (b, omega arith);
    stats = stat_entry-Balanced;
    reads = read_some-Balanced;
  }

-- What an open adds to the open directories, and to their high-water mark.
abbrev Opens : FakeFs → World → Type 0
Opens f w =
    (m : ℕ) × Balanced f.open_dirs m w
    × ((m ≡ f.max_open_dirs) ⊎ ((m ≡ f.open_dirs + 1) × (f.max_open_dirs < m)))

-- The state with one more open directory.
abbrev with_one_more : FakeFs → FakeFs
with_one_more f =
    let opened = add64 f.open_dirs 1 in
    record f {
      open_dirs = opened;
      max_open_dirs = if lt64 f.max_open_dirs opened then opened else f.max_open_dirs;
    }

-- How an open ends.
abbrev Opened : FakeFs → (Error ⊎ FakeDir) × FakeFs → Type 0
Opened f r =
    ((err : Error) × (r ≡ (inl err, f)))
    ⊎ ((d : FakeDir) × (r ≡ (inr d, with_one_more f)) × (d.closed ≡ false))

open_node-Opened :
    (order : ℕ → Str → List Str → List Str) (p : Str) (f : FakeFs) → Opened f (open_node order p f)
unfolding open_node
open_node-Opened order p f = elim (Option-cases (error_at p f.open_errs)) [
  | inr (err, e) ↦ inl (err, ground (arith, e))
  | inl fine ↦ elim (Option-cases (lookup p f.nodes)) [
    | inl gone ↦ inl (err_not_exist, ground (arith, fine, gone))
    | inr (node, there) ↦ elim (Bool-cases node.stat.mode.symlink) [
      | inl link ↦ inl (err_other, ground (arith, fine, there, link))
      | inr other ↦ elim (Bool-cases (is_dir node.stat)) [
        | inr plain ↦ inl (err_other, ground (arith, fine, there, other, plain))
        | inl dir ↦ inr (handle_of order p f node, ground (arith, fine, there, other, dir), refl)
      ]
    ]
  ]
]

open_dir-Opened :
    (order : ℕ → Str → List Str → List Str) (p : Str) (f : FakeFs) → Opened f (open_dir order p f)
unfolding open_dir
open_dir-Opened order p f = elim (Option-cases (call_hook f.before_open (clean p))) [
  | inr (err, e) ↦ inl (err, ground (arith, e))
  | inl fine ↦ subst (Opened f) (ground (arith, fine)) (open_node-Opened order (clean p) f)
]

open_dir-Opens :
    (order : ℕ → Str → List Str → List Str) (p : Str) (d : FakeDir) (f : FakeFs)
    → d.closed ≡ true
    → f.open_dirs + 1 < 2 ^ 63
    → f.max_open_dirs < 2 ^ 63
    → Opens f (hold d (open_dir order p f)).1
open_dir-Opens order p d f shut few low = elim (open_dir-Opened order p f) [
  | inl (err, e) ↦
      subst (λ r. Opens f (hold d r).1) (sym e)
        (f.max_open_dirs, (ground (arith, shut), refl), inl refl)
  | inr (d', e, fresh) ↦
      subst (λ r. Opens f (hold d r).1) (sym e)
        ((with_one_more f).max_open_dirs, (ground (arith, fresh), refl), ground arith)
]

close_handle-open_dirs :
    (d : FakeDir) (f : FakeFs) (k m : ℕ)
    → k + 1 < 2 ^ 63
    → Balanced k m (d, f)
    → let (d', f') = close_handle d f in
      (d'.closed ≡ true) × (f'.open_dirs ≡ k) × (f'.max_open_dirs ≡ m)
unfolding close_handle
close_handle-open_dirs d f k m few b = ground arith

-- The handle is closed, as many directories are open as in `f`, and at most one more was.
abbrev Closed : FakeFs → World → Type 0
Closed f (d', f') =
    (d'.closed ≡ true)
    × (f'.open_dirs ≡ f.open_dirs)
    × ((f'.max_open_dirs ≡ f.max_open_dirs)
        ⊎ ((f'.max_open_dirs ≡ f.open_dirs + 1) × (f.max_open_dirs < f'.max_open_dirs)))

open_failed :
    (order : ℕ → Str → List Str → List Str) (p : Str) (d : FakeDir) (f : FakeFs)
    → d.closed ≡ true
    → is_failed (hold d (open_dir order p f)).0 ≡ true
    → Closed f (hold d (open_dir order p f)).1
open_failed order p d f shut failed = elim (open_dir-Opened order p f) [
  | inl (err, e) ↦ subst (λ r. Closed f (hold d r).1) (sym e) (shut, refl, inl refl)
  | inr (d', e, fresh) ↦ absurd (ground (arith, failed, ap (λ r. is_failed (hold d r).0) e))
]

-- Whatever fails (a hook, an open, a read, a stat, a wait, the context), and whatever the fake holds,
-- `processDir` on the fake returns with fuel above the number of entries of the directory; and after
-- it the handle is closed, the number of open directories is what it was, and its high-water mark is what it was or
-- the number with one more.
pub process_dir-closes :
    (order : ℕ → Str → List Str → List Str) (pace : Pace World) (f : FakeFs) (d : FakeDir)
    (cfg : WalkConfig) (ref : DirRef) (fuel : ℕ) (t : TargetScan)
    → d.closed ≡ true
    → f.open_dirs + 1 < 2 ^ 63
    → f.max_open_dirs < 2 ^ 63
    → 0 < cfg.batch_size
    → left_of ((fake_env order pace).open_dir ref.path (d, f)).1 < fuel
    → (r : List DirRef × (TargetScan × World)) × (process_dir
          (fake_env order pace)
          cfg
          ref
          fuel
          t
          (d, f)
        ≡ some r)
      × let (d', f') = r.1.1 in
        (d'.closed ≡ true)
        × (f'.open_dirs ≡ f.open_dirs)
        × ((f'.max_open_dirs ≡ f.max_open_dirs)
            ⊎ ((f'.max_open_dirs ≡ f.open_dirs + 1) × (f.max_open_dirs < f'.max_open_dirs)))
process_dir-closes order pace f d cfg ref fuel t shut few low pos enough =
    let (m, balanced, high) = open_dir-Opens order ref.path d f shut few low in
    let (r, done, ended) =
      process_dir-Keeps (fake_env order pace) cfg ref (Balanced f.open_dirs m) left_of
        (fake-Shrinks order f.open_dirs m pace) fuel t (d, f) pos balanced enough in
    (
      r,
      done,
      elim ended [
        | inl (failed, same) ↦
            subst (Closed f) (sym same) (open_failed order ref.path d f shut failed)
        | inr ((d', f'), (now, top), same) ↦
            let (closed, open_now, most) =
              close_handle-open_dirs d' f' f.open_dirs m few (now, top) in
            subst (Closed f) (sym same) (closed, open_now, ground (arith, most, high))
      ],
    )
