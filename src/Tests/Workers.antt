-- ===== src/Tests/Workers.antt =====
-- A worker alone on the pool.
use directory_size_exporter.Base.{
  ℕ, ◌+◌, ◌%◌, ◌^◌, ◌<◌, ◌≡◌, refl, sym, ap, ap₂, subst, ◌∙◌, Bool, Bool-cases, inl, inr, true,
  false, Option, none, some, List, [], ◌∷◌, ◌++◌, Str, str, str_eq, str_beq, str_beq_iff, ◌==◌,
  if◌then◌else◌, nat_beq, length, arith, add64,
}
use directory_size_exporter.Scan.ErrClass.{Error}
use directory_size_exporter.Scan.Target.{
  TargetScan, FileStat, new_target_scan, no_totals, count_file, should_count, flush,
}
use directory_size_exporter.Scan.Walk.{
  Entry, DirRef, Env, WalkConfig, process_dir, is_read_fault, is_eof_error, process_status,
  process_stat,
}
use directory_size_exporter.Scan.Walk.Pass.{Listing, walk_entry, walk_entries}
use directory_size_exporter.Scan.Walk.Listing.{process_dir-walk_entries}
use mathlib.Core.List.{append-nil}
use directory_size_exporter.Scan.Pool.{new_pool, push_shared}
use directory_size_exporter.Scan.Latch.{WorkRef}
use directory_size_exporter.Scan.Worker.{Cycle, parked, worker}
use directory_size_exporter.Scan.Worker.Queue.{weigh, on, one, queue}
use directory_size_exporter.Scan.Worker.Visits.{Plan, Steady, Sound, none_held}
use directory_size_exporter.Scan.Worker.Drains.{worker_drains}
use directory_size_exporter.Scan.Target.{add_pending}
use directory_size_exporter.Scan.Engine.{prepare_root}
use directory_size_exporter.Scan.Launch.{root_ref, prepared, launch}
use directory_size_exporter.Scan.Launch.Measured.{first_cycle, path_of, launch_drains}
use directory_size_exporter.Tests.{day, file, dir_mode, plain_mode}

-- The directory `day` holds a file of ten bytes and a directory, and every other one a file alone. The
-- world is the path of the directory that is open, and whether it has been read.
abbrev World : Type 0
World = Str × Bool

abbrev file_entry : Entry
file_entry = record { name = str "f"; entry_type = plain_mode }

abbrev dir_entry : Entry
dir_entry = record { name = str "d"; entry_type = dir_mode }

abbrev entries_at : Str → List Entry
entries_at path = if path == day then dir_entry ∷ file_entry ∷ [] else file_entry ∷ []

abbrev two_level : Env World
two_level = record {
  open_dir = λ path w. (none, (path, false));
  read_some =
      λ n (path, done). ((if done then ([], none) else (entries_at path, none)), (path, true));
  stat_entry = λ name w.
      ((none, if name == str "d" then record (file 1 1 0) { mode = dir_mode } else file 2 1 10), w);
  close = λ w. w;
  ctx_err = λ w. (false, w);
  wait_for_tokens = λ n w. (none, w);
  join = λ path name. path ++ 47 ∷ name;
}

abbrev plainly : WalkConfig
plainly = record { batch_size = 8; one_filesystem = true; dedup_hardlinks = true; limited = false }

abbrev below : DirRef → List DirRef
below ref =
    if ref.path == day
    then record { path = ref.path ++ 47 ∷ str "d"; depth = ref.depth + 1 } ∷ []
    else []

-- The root of the target is on the device 1.
abbrev OnDevice : TargetScan → Type 0
OnDevice t = (t.has_root_dev ≡ true) × (t.root_dev ≡ 1)

abbrev plan : Plan World
plan = record {
  env = two_level;
  cfg = plainly;
  dir_fuel = 3;
  root_err = λ w. (false, w);
  measure = λ t. t.size;
  Good = λ w. Unit;
  Fit = OnDevice;
  children = below;
  gain = λ ref. 10;
  nodes = λ ref. if ref.path == day then 2 else 1;
  total = λ ref. if ref.path == day then 20 else 10;
}

-- What is still to be read of the directory at `path`.
abbrev Left : Str → List Entry → World → Type 0
Left path es (q, done) = (q ≡ path) × (es ≡ (if done then [] else entries_at path))

abbrev stat_of : Str → Option Error × FileStat
stat_of name =
    (none, if name == str "d" then record (file 1 1 0) { mode = dir_mode } else file 2 1 10)

two_level-reads :
    (path : Str) (n : ℕ) (es : List Entry) (w : World)
    → 0 < n
    → Left path es w
    → (rest : List Entry) × (es ≡ (two_level.read_some n w).0.0 ++ rest)
      × Left path rest (two_level.read_some n w).1
      × (is_read_fault (two_level.read_some n w).0.1 ≡ false)
      × (is_eof_error (two_level.read_some n w).0.1 ≡ true → rest ≡ [])
      × ((two_level.read_some n w).0.0 ≡ [] → rest ≡ [])
two_level-reads path n es (q, true) pos (same, left) =
    ([], left, (same, refl), refl, λ _. refl, λ _. refl)
two_level-reads path n es (q, false) pos (same, left) = (
  [],
  left ∙ sym (ap entries_at same) ∙ sym (append-nil (entries_at q)),
  (same, refl),
  refl,
  λ _. refl,
  λ _. refl,
)

two_level-Listing : (path : Str) → Listing two_level stat_of (Left path)
two_level-Listing path = record {
  not_late = λ es w at. (refl, at);
  tokens = λ n es w at. (refl, at);
  stats = λ name es w at. (refl, at);
  reads = two_level-reads path;
}

-- The target after a pass over the entries.
abbrev after_pass : DirRef → List Entry → TargetScan → TargetScan
after_pass ref es t =
    let (children, (totals, t')) =
      walk_entries plainly ref two_level.join stat_of es [] (no_totals, t) in
    flush (record totals { dirs = add64 totals.dirs (length children) }) t'

abbrev Walked : DirRef → TargetScan → World → Type 0
Walked ref t w =
    (t' : TargetScan) × (w' : World) × (process_dir two_level plainly ref 3 t w
      ≡ some (below ref, (t', w')))
    × Unit {0}
    × (t'.abandoned ≡ false)
    × (t'.pending ≡ t.pending)
    × OnDevice t'
    × (t'.size % 2 ^ 64 ≡ (t.size + 10) % 2 ^ 64)

abbrev on_device : TargetScan → TargetScan
on_device t = record t { has_root_dev = true; root_dev = 1 }

on_device_lem : (t : TargetScan) → OnDevice t → on_device t ≡ t
on_device_lem t (has, at) =
    ap₂ (λ (b : Bool) (d : ℕ). record t { has_root_dev = b; root_dev = d }) (sym has) (sym at)

day-Walked :
    (ref : DirRef) (t : TargetScan) (w : World)
    → t.abandoned ≡ false
    → (ref.path == day) ≡ true
    → Walked ref (on_device t) w
unfolding walk_entries walk_entry process_status process_stat count_file should_count flush str_beq
day-Walked ref t₀ w free same =
    let t = on_device t₀ in
    let e : dir_entry ∷ file_entry ∷ [] ≡ entries_at ref.path = ground (arith, same) in
    let (w', done) =
      process_dir-walk_entries two_level plainly ref stat_of (Left ref.path)
        (two_level-Listing ref.path) (dir_entry ∷ file_entry ∷ []) 3 t w (omega arith) free
        (omega arith) refl (refl, e) in
    let b : below ref ≡ record { path = ref.path ++ 47 ∷ str "d"; depth = ref.depth + 1 } ∷ [] =
      ground (arith, same) in
    (
      after_pass ref (dir_entry ∷ file_entry ∷ []) t,
      w',
      done ∙ ap (λ cs. some (cs, (after_pass ref (dir_entry ∷ file_entry ∷ []) t, w'))) (sym b),
      tt,
      free,
      refl,
      (refl, refl),
      omega arith,
    )

other-Walked :
    (ref : DirRef) (t : TargetScan) (w : World)
    → t.abandoned ≡ false
    → OnDevice t
    → (ref.path == day) ≡ false
    → Walked ref t w
unfolding walk_entries walk_entry process_status process_stat count_file should_count flush str_beq
other-Walked ref t w free fit other =
    let e : file_entry ∷ [] ≡ entries_at ref.path = ground (arith, other) in
    let (w', done) =
      process_dir-walk_entries two_level plainly ref stat_of (Left ref.path)
        (two_level-Listing ref.path) (file_entry ∷ []) 3 t w (omega arith) free (omega arith) refl
        (refl, e) in
    let b : below ref ≡ [] = ground (arith, other) in
    (
      after_pass ref (file_entry ∷ []) t,
      w',
      done ∙ ap (λ cs. some (cs, (after_pass ref (file_entry ∷ []) t, w'))) (sym b),
      tt,
      free,
      refl,
      fit,
      omega arith,
    )

any-Walked :
    (ref : DirRef) (t : TargetScan) (w : World)
    → Unit {0}
    → t.abandoned ≡ false
    → OnDevice t
    → Walked ref t w
any-Walked ref t w _ free fit = elim (Bool-cases (ref.path == day)) [
  | inl same ↦ subst (λ t. Walked ref t w) (on_device_lem t fit) (day-Walked ref t w free same)
  | inr other ↦ other-Walked ref t w free fit other
]

child_is_other :
    (ref : DirRef) → (ref.path == day) ≡ true → ((ref.path ++ 47 ∷ str "d") == day) ≡ false
unfolding str_beq
child_is_other ref same =
    subst (λ p. ((p ++ 47 ∷ str "d") == day) ≡ false) (sym ((str_beq_iff ref.path day).0 same)) refl

nodes_below : (ref : DirRef) → plan.nodes ref ≡ 1 + weigh plan.nodes (below ref)
unfolding weigh
nodes_below ref = elim (Bool-cases (ref.path == day)) [
  | inl same ↦ ground (arith, same, child_is_other ref same)
  | inr other ↦ ground (arith, other)
]

gains_below : (ref : DirRef) → plan.total ref ≡ 10 + weigh plan.total (below ref)
unfolding weigh
gains_below ref = elim (Bool-cases (ref.path == day)) [
  | inl same ↦ ground (arith, same, child_is_other ref same)
  | inr other ↦ ground (arith, other)
]

plan-Steady : Steady plan
unfolding weigh
plan-Steady = record {
  on_time = λ w good. (refl, good);
  root_live = λ w good. (refl, good);
  walked = any-Walked;
  measured = λ t p d. refl;
  kept = λ t p d fit. fit;
  all_nodes = nodes_below;
  all_gains = gains_below;
}

-- The root of target 3 is queued.
abbrev root : WorkRef
root = record { owner = 3; dir = record { path = day; depth = 0 } }

abbrev pending_one : ℕ → TargetScan
pending_one o = record (new_target_scan day 50 1000) {
  root_dev = 1;
  has_root_dev = true;
  pending = if nat_beq 3 o then 1 else 0;
}

abbrev queued : Cycle World
queued = record {
  pool = push_shared (root ∷ []) (new_pool 64 32);
  stack = [];
  targets = pending_one;
  world = ([], false);
}

queued-Sound : Sound plan.Good plan.Fit none_held queued
unfolding weigh push_shared new_pool new_target_scan
queued-Sound = record {
  live = refl;
  good = tt;
  free = λ o. refl;
  counted = λ o. ground arith;
  fit = λ o _. (refl, refl);
}

worker_drains_example :
    (c : Cycle World) × (worker two_level plainly 3 plan.root_err 3 queued ≡ some (parked, c))
    × (c.pool.deque ≡ [])
    × (c.stack ≡ [])
    × ((o : ℕ)
        → ((c.targets o).size % 2 ^ 64
            ≡ ((pending_one o).size + weigh (on o plan.total) (queue queued)) % 2 ^ 64)
          × ((c.targets o).pending ≡ 0)
          × (0 < weigh (on o one) (queue queued) → (c.targets o).done ≡ true)
          × (weigh (on o one) (queue queued) ≡ 0 → c.targets o ≡ pending_one o))
unfolding weigh push_shared new_pool str_beq
worker_drains_example =
    worker_drains plan plan-Steady 3 queued queued-Sound (omega arith) (omega arith)

abbrev gone : Error
gone = record { is_permission = false; is_not_exist = true; is_eof = false; errno = none }

-- The directory `day` is there, and nothing else.
abbrev lstat_day : Str → Option Error × FileStat
lstat_day path =
    if path == day then (none, record (file 1 1 0) { mode = dir_mode }) else (some gone, file 9 1 0)

abbrev asked : List Str
asked = str "/gone" ∷ day ∷ []

launch_drains_example :
    (c : Cycle World) × (worker two_level plainly 3 plan.root_err 3
        (first_cycle true lstat_day 50 1000 64 32 asked ([], false))
      ≡ some (parked, c))
    × ((c.targets 1).size % 2 ^ 64
        ≡ ((prepared true lstat_day 50 1000 day).1.size + plan.total (root_ref day)) % 2 ^ 64)
    × ((c.targets 1).pending ≡ 0)
    × ((c.targets 1).done ≡ true)
unfolding weigh push_shared new_pool str_beq launch prepare_root path_of add_pending
launch_drains_example =
    launch_drains true lstat_day 50 1000 plan plan-Steady 64 32 3 asked ([], false)
      ((λ e. absurd (ground (arith, e))), ((λ e. (refl, refl)), tt)) tt (omega arith) (omega arith)
      1 day refl refl
