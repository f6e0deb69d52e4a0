-- ===== src/Scan/Launch/Measured.antt =====
-- The targets that `ScanAll` launches, and the loop of one worker over them (internal/scan/engine.go).
use directory_size_exporter.Base.{
  ℕ, suc, ◌+◌, ◌%◌, ◌^◌, ◌≤◌, ◌<◌, ◌≡◌, refl, sym, ap, subst, ◌∙◌, Bool, true, false, Option, none,
  some, List, [], ◌∷◌, All, Str, if◌then◌else◌, nat_beq, nat_beq_iff, length, arith, Bool-cases,
  Option-cases, inl, inr,
}
use directory_size_exporter.State.{Outcome}
use directory_size_exporter.Scan.ErrClass.{Error}
use directory_size_exporter.Scan.Target.{
  FileStat, TargetScan, new_target_scan, add_pending, record_error,
}
use directory_size_exporter.Scan.Walk.{DirRef}
use directory_size_exporter.Scan.Pool.{new_pool, push_shared}
use directory_size_exporter.Scan.Latch.{WorkRef}
use directory_size_exporter.Scan.Engine.{prepare_root}
use directory_size_exporter.Scan.Worker.{Cycle, parked, worker, owned_by}
use directory_size_exporter.Scan.Worker.Queue.{weigh, weigh-append, on, of_any, one, queue}
use directory_size_exporter.Scan.Worker.Visits.{Plan, Steady, Sound, none_held}
use directory_size_exporter.Scan.Worker.Drains.{worker_drains}
use directory_size_exporter.Scan.Launch.{Launched, root_ref, prepared, admit_root, launch}
use std.Option.{some-injective}

-- The path of target `o`, where the first one is that of target `n`.
unfoldable pub path_of : ℕ → List Str → ℕ → Option Str
path_of n [] o = none
path_of n (path ∷ paths) o = if nat_beq n o then some path else path_of (suc n) paths o

path_of-above :
    (n : ℕ) (paths : List Str) (o : ℕ) (path : Str) → path_of n paths o ≡ some path → n ≤ o
unfolding path_of
path_of-above n [] o path h = absurd cc
path_of-above n (p ∷ paths) o path h = elim (Bool-cases (nat_beq n o)) [
  | inl same ↦ omega (arith, (nat_beq_iff n o).0 same)
  | inr distinct ↦ omega (arith, path_of-above (suc n) paths o path (ground (arith, h, distinct)))
]

module _ (has_inodes : Bool) (lstat : Str → Option Error × FileStat) (now max_tracked : ℕ) where
  abbrev prepare : Str → Option Outcome × TargetScan
  prepare = prepared has_inodes lstat now max_tracked

  -- What a new target that is prepared has.
  prepared_new :
      (path : Str)
      → ((prepare path).1.pending ≡ 0)
        × ((prepare path).1.abandoned ≡ false)
        × ((prepare path).1.size ≡ 0)
  unfolding prepare_root new_target_scan record_error
  prepared_new path = elim (Option-cases (lstat path).0) [
    | inl fine ↦ ground (arith, fine)
    | inr (err, e) ↦ ground (arith, e)
  ]

  -- The targets below `n` are launched.
  pub record Ready (n : ℕ) (l : Launched) : Type 0 where
    pub live : l.pool.closed ≡ false
    pub free : (o : ℕ) → (l.targets o).abandoned ≡ false
    pub counted : (o : ℕ) → (l.targets o).pending ≡ weigh (on o one) l.pool.deque
    pub above : (o : ℕ) (f : DirRef → ℕ) → n ≤ o → weigh (on o f) l.pool.deque ≡ 0

  abbrev admit : ℕ → Str → Option Outcome × TargetScan → Launched → Launched
  admit = admit_root has_inodes lstat now max_tracked

  -- What a root adds to what is queued.
  abbrev added : (WorkRef → ℕ) → ℕ → Str → Option Outcome → ℕ
  added f n path none = f (owned_by n (root_ref path))
  added f n path (some _) = 0

  admit-weigh :
      (n : ℕ) (path : Str) (r : Option Outcome × TargetScan) (l : Launched) (f : WorkRef → ℕ)
      → weigh f (admit n path r l).pool.deque ≡ weigh f l.pool.deque + added f n path r.0
  unfolding push_shared weigh
  admit-weigh n path (none, t) l f =
      omega (arith, weigh-append f l.pool.deque (owned_by n (root_ref path) ∷ []))
  admit-weigh n path (some _, t) l f = omega arith

  admit-Ready :
      (n : ℕ) (path : Str) (r : Option Outcome × TargetScan) (l : Launched)
      → (r.1.pending ≡ 0)
      → (r.1.abandoned ≡ false)
      → Ready n l
      → Ready (suc n) (admit n path r l)
  unfolding push_shared add_pending
  admit-Ready n path (none, t) l fresh kept ready = record {
    live = ready.live;
    free = λ o. ground (arith, kept, ready.free o);
    counted = λ o. ground (
      arith,
      fresh,
      ready.counted o,
      ready.above n one (omega arith),
      nat_beq_iff n o,
      admit-weigh n path (none, t) l (on o one),
    );
    above = λ o f h. ground (
      arith,
      h,
      nat_beq_iff n o,
      ready.above o f (omega (arith, h)),
      admit-weigh n path (none, t) l (on o f),
    );
  }
  admit-Ready n path (some outcome, t) l fresh kept ready = record {
    live = ready.live;
    free = λ o. ground (arith, kept, ready.free o);
    counted = λ o. elim (Bool-cases (nat_beq n o)) [
      | inl same ↦
          ground (arith, same, fresh, ready.above o one (omega (arith, (nat_beq_iff n o).0 same)))
      | inr distinct ↦ ground (arith, distinct, ready.counted o)
    ];
    above = λ o f h. ready.above o f (omega (arith, h));
  }

  abbrev launch_all : ℕ → List Str → Launched → Launched
  launch_all = launch has_inodes lstat now max_tracked

  launch-Ready :
      (n : ℕ) (paths : List Str) (l : Launched)
      → Ready n l
      → Ready (n + length paths) (launch_all n paths l)
  unfolding launch
  launch-Ready n [] l ready = subst (λ (k : ℕ). Ready k (launch_all n [] l)) (omega arith) ready
  launch-Ready n (path ∷ paths) l ready =
      let (fresh, kept, _) = prepared_new path in
      subst (λ (k : ℕ). Ready k (launch_all n (path ∷ paths) l)) (omega arith)
        (launch-Ready (suc n) paths (admit n path (prepare path) l)
          (admit-Ready n path (prepare path) l fresh kept ready))

  -- What the roots from `n` on add.
  added_all : (WorkRef → ℕ) → ℕ → List Str → ℕ
  added_all f n [] = 0
  added_all f n (path ∷ paths) = added f n path (prepare path).0 + added_all f (suc n) paths

  launch-weigh :
      (n : ℕ) (paths : List Str) (l : Launched) (f : WorkRef → ℕ)
      → weigh f (launch_all n paths l).pool.deque ≡ weigh f l.pool.deque + added_all f n paths
  unfolding launch added_all
  launch-weigh n [] l f = omega arith
  launch-weigh n (path ∷ paths) l f = omega (
    arith,
    launch-weigh (suc n) paths (admit n path (prepare path) l) f,
    admit-weigh n path (prepare path) l f,
  )

  admit-other :
      (n : ℕ) (path : Str) (r : Option Outcome × TargetScan) (l : Launched) (o : ℕ)
      → o < n
      → (admit n path r l).targets o ≡ l.targets o
  admit-other n path (none, t) l o h = ground (arith, h, nat_beq_iff n o)
  admit-other n path (some _, t) l o h = ground (arith, h, nat_beq_iff n o)

  added-below :
      (f : DirRef → ℕ) (n : ℕ) (path : Str) (r : Option Outcome) (o : ℕ)
      → o < n
      → added (on o f) n path r ≡ 0
  added-below f n path none o h = ground (arith, h, nat_beq_iff n o)
  added-below f n path (some _) o h = refl

  -- The targets that are not launched yet keep what they have.
  launch-below :
      (n : ℕ) (paths : List Str) (l : Launched) (o : ℕ)
      → o < n
      → (launch_all n paths l).targets o ≡ l.targets o
  unfolding launch
  launch-below n [] l o h = refl
  launch-below n (path ∷ paths) l o h =
      launch-below (suc n) paths (admit n path (prepare path) l) o (omega (arith, h))
      ∙ admit-other n path (prepare path) l o (omega (arith, h))

  added_all-below :
      (f : DirRef → ℕ) (n : ℕ) (paths : List Str) (o : ℕ) → o < n → added_all (on o f) n paths ≡ 0
  unfolding added_all
  added_all-below f n [] o h = refl
  added_all-below f n (path ∷ paths) o h = omega (
    arith,
    added-below f n path (prepare path).0 o h,
    added_all-below f (suc n) paths o (omega (arith, h)),
  )

  -- What a target has that is launched, with the directory `path` as its root.
  record Rooted (o : ℕ) (path : Str) (l : Launched) : Type 0 where
    target : l.targets o ≡ add_pending 1 (prepare path).1
    root : (f : DirRef → ℕ) → weigh (on o f) l.pool.deque ≡ f (root_ref path)

  admit-own :
      (n : ℕ) (path : Str) (r : Option Outcome × TargetScan) (l : Launched)
      → r.0 ≡ none
      → ((admit n path r l).targets n ≡ add_pending 1 r.1)
        × ((f : DirRef → ℕ) → added (on n f) n path r.0 ≡ f (root_ref path))
  admit-own n path (none, t) l h =
      (ground (arith, (nat_beq_iff n n).1 refl), λ f. ground (arith, (nat_beq_iff n n).1 refl))
  admit-own n path (some _, t) l h = absurd cc

  launch-head :
      (n : ℕ) (path : Str) (paths : List Str) (l : Launched)
      → Ready n l
      → (prepare path).0 ≡ none
      → Rooted n path (launch_all n (path ∷ paths) l)
  unfolding launch
  launch-head n path paths l ready e =
      let (own, adds) = admit-own n path (prepare path) l e in
      record {
        target = launch-below (suc n) paths (admit n path (prepare path) l) n (omega arith) ∙ own;
        root = λ f. omega (
          arith,
          launch-weigh (suc n) paths (admit n path (prepare path) l) (on n f),
          admit-weigh n path (prepare path) l (on n f),
          adds f,
          ready.above n f (omega arith),
          added_all-below f (suc n) paths n (omega arith),
        );
      }

  launch-Rooted :
      (n : ℕ) (paths : List Str) (l : Launched)
      → Ready n l
      → (o : ℕ) (path : Str) → path_of n paths o ≡ some path
      → (prepare path).0 ≡ none
      → Rooted o path (launch_all n paths l)
  unfolding launch path_of added_all
  launch-Rooted n [] l ready o path h e = absurd cc
  launch-Rooted n (p ∷ paths) l ready o path h e = elim (Bool-cases (nat_beq n o)) [
    | inl same ↦
        let here : n ≡ o = (nat_beq_iff n o).0 same in
        let first : p ≡ path = some-injective (ground (arith, same, h)) in
        subst (λ (k : ℕ). Rooted k path (launch_all n (p ∷ paths) l)) here
          (subst (λ (q : Str). Rooted n q (launch_all n (p ∷ paths) l)) first
            (launch-head n p paths l ready
              (subst (λ (q : Str). (prepare q).0 ≡ none) (sym first) e)))
    | inr distinct ↦
        let (fresh, kept, _) = prepared_new p in
        launch-Rooted (suc n) paths (admit n p (prepare p) l)
          (admit-Ready n p (prepare p) l fresh kept ready) o path (ground (arith, h, distinct)) e
  ]

  -- The targets whose root is prepared are fit.
  abbrev pub AllFit : (TargetScan → Type 0) → List Str → Type 0
  AllFit Fit paths = All (λ path. (prepare path).0 ≡ none → Fit (prepare path).1) paths

  abbrev PendingFit : (TargetScan → Type 0) → Launched → Type 0
  PendingFit Fit l = (o : ℕ) → 0 < (l.targets o).pending → Fit (l.targets o)

  admit-Fit :
      {W : Type 0} (plan : Plan W)
      → Steady plan
      → (n : ℕ) (path : Str) (r : Option Outcome × TargetScan) (l : Launched) → (r.1.pending ≡ 0)
      → (r.0 ≡ none → plan.Fit r.1)
      → PendingFit plan.Fit l
      → PendingFit plan.Fit (admit n path r l)
  unfolding add_pending
  admit-Fit plan steady n path (none, t) l fresh fit before o h = elim (Bool-cases (nat_beq n o)) [
    | inl same ↦ rw same (steady.kept t (add_pending 1 t).pending t.done (fit refl))
    | inr distinct ↦ rw distinct (before o (ground (arith, h, distinct)))
  ]
  admit-Fit plan steady n path (some _, t) l fresh fit before o h =
      elim (Bool-cases (nat_beq n o)) [
        | inl same ↦ absurd (ground (arith, h, same, fresh))
        | inr distinct ↦ rw distinct (before o (ground (arith, h, distinct)))
      ]

  launch-Fit :
      {W : Type 0} (plan : Plan W)
      → Steady plan
      → (n : ℕ) (paths : List Str) (l : Launched) → AllFit plan.Fit paths
      → PendingFit plan.Fit l
      → PendingFit plan.Fit (launch_all n paths l)
  unfolding launch
  launch-Fit plan steady n [] l fits before = before
  launch-Fit plan steady n (path ∷ paths) l (fit, fits) before =
      launch-Fit plan steady (suc n) paths (admit n path (prepare path) l) fits
        (admit-Fit plan steady n path (prepare path) l (prepared_new path).0 fit before)

  -- What `ScanAll` starts from: an empty pool, and targets of which none is pending.
  abbrev started : ℕ → ℕ → Launched
  started limit share_over = record {
    pool = new_pool limit share_over;
    targets = λ o. new_target_scan [] now max_tracked;
    refused = [];
  }

  started-Ready : (limit share_over : ℕ) → Ready 0 (started limit share_over)
  unfolding new_pool new_target_scan weigh
  started-Ready limit share_over = record {
    live = refl;
    free = λ o. refl;
    counted = λ o. refl;
    above = λ o f h. refl;
  }

  started_none : (limit share_over o : ℕ) → ((started limit share_over).targets o).pending ≡ 0
  unfolding new_target_scan
  started_none limit share_over o = refl

  -- The cycle of a worker that starts once the targets are launched.
  abbrev pub first_cycle : {W : Type 0} → ℕ → ℕ → List Str → W → Cycle W
  first_cycle limit share_over paths w =
      let l = launch_all 0 paths (started limit share_over) in
      record { pool = l.pool; stack = []; targets = l.targets; world = w }

  queue-first :
      {W : Type 0} (limit share_over : ℕ) (paths : List Str) (w : W) (f : WorkRef → ℕ)
      → weigh f (queue (first_cycle limit share_over paths w))
        ≡ weigh f (first_cycle limit share_over paths w).pool.deque
  unfolding weigh
  queue-first limit share_over paths w f =
      omega (arith, weigh-append f (first_cycle limit share_over paths w).pool.deque [])

  first_cycle-Sound :
      {W : Type 0} (plan : Plan W)
      → Steady plan
      → (limit share_over : ℕ) (paths : List Str) (w : W) → AllFit plan.Fit paths
      → plan.Good w
      → Sound plan.Good plan.Fit none_held (first_cycle limit share_over paths w)
  unfolding weigh
  first_cycle-Sound plan steady limit share_over paths w fits good =
      let ready =
        launch-Ready 0 paths (started limit share_over) (started-Ready limit share_over) in
      record {
        live = ready.live;
        good = good;
        free = ready.free;
        fit =
            launch-Fit plan steady 0 paths (started limit share_over) fits
              (λ o h. absurd (omega (arith, h, started_none limit share_over o)));
        counted =
            λ o. omega (arith, ready.counted o, queue-first limit share_over paths w (on o one));
      }

  measured-add_pending :
      {W : Type 0} (plan : Plan W)
      → Steady plan
      → (t : TargetScan) → plan.measure (add_pending 1 t) ≡ plan.measure t
  unfolding add_pending
  measured-add_pending plan steady t = steady.measured t (add_pending 1 t).pending t.done

  -- After `ScanAll` has launched the targets `paths`, one worker, while no context ends and no target is
  -- abandoned, walks their trees of directories, which stay as they are, to the end, with fuel above the
  -- number of their directories (which is below 2 ^ 64), if the prepared targets are fit; a target whose
  -- root was prepared has then gained, modulo 2 ^ 64, what all the directories under its root gain, by
  -- any measure to which each of them adds the same for every target that is fit, whatever was counted
  -- before; nothing of it is pending; and its latch is closed.
  pub launch_drains :
      {W : Type 0} (plan : Plan W)
      → Steady plan
      → (limit share_over fuel : ℕ) (paths : List Str) (w : W) → AllFit plan.Fit paths
      → plan.Good w
      → weigh (of_any plan.nodes) (queue (first_cycle limit share_over paths w)) < 2 ^ 64
      → weigh (of_any plan.nodes) (queue (first_cycle limit share_over paths w)) < fuel
      → (o : ℕ) (path : Str) → path_of 0 paths o ≡ some path
      → (prepare path).0 ≡ none
      → (c : Cycle W) × (worker plan.env plan.cfg plan.dir_fuel plan.root_err fuel
            (first_cycle limit share_over paths w)
          ≡ some (parked, c))
        × (plan.measure (c.targets o) % 2 ^ 64
            ≡ (plan.measure (prepare path).1 + plan.total (root_ref path)) % 2 ^ 64)
        × ((c.targets o).pending ≡ 0)
        × ((c.targets o).done ≡ true)
  launch_drains plan steady limit share_over fuel paths w fits good few enough o path listed e =
      let c = first_cycle limit share_over paths w in
      let (c', run, _, _, ends) =
        worker_drains plan steady fuel c
          (first_cycle-Sound plan steady limit share_over paths w fits good) few enough in
      let rooted =
        launch-Rooted 0 paths (started limit share_over) (started-Ready limit share_over) o path
          listed e in
      let (gained, settled, finished, _) = ends o in
      let queued = queue-first limit share_over paths w in
      (
        c',
        run,
        gained
            ∙ ap (λ (k : ℕ). k % 2 ^ 64)
                (omega (
                  arith,
                  ap plan.measure rooted.target,
                  measured-add_pending plan steady (prepare path).1,
                  queued (on o plan.total),
                  rooted.root plan.total,
                )),
        settled,
        finished (omega (arith, queued (on o one), rooted.root one)),
      )
