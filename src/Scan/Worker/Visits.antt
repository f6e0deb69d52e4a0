-- ===== src/Scan/Worker/Visits.antt =====
-- The visit of one directory by a worker (internal/scan/engine.go), in trees that stay as they are.
use directory_size_exporter.Base.{
  ℕ, ◌+◌, ◌%◌, ◌^◌, ◌≤◌, ◌<◌, ◌≡◌, refl, sym, ap, subst, ◌∙◌, Bool, true, false, some, List, [],
  ◌∷◌, map, length, nat_beq, nat_beq_iff, if◌then◌else◌, arith, inl, inr, Bool-cases,
}
use directory_size_exporter.Scan.Target.{TargetScan}
use directory_size_exporter.Scan.Walk.{DirRef, Env, WalkConfig, process_dir}
use directory_size_exporter.Scan.Latch.{WorkRef}
use directory_size_exporter.Scan.Worker.{Cycle, owned_by, publish_children, visit}
use directory_size_exporter.Scan.Worker.Queue.{
  weigh, on, one, queue, weigh-owned_by, weigh-one, publish_children-weigh, publish_children-closed,
  publish_children-world, publish_children-other, Published, publish_children-Published,
}

-- The setting of a run (the filesystem, the settings, the fuel of a directory, the root context), and
-- what is said of it: what `measure` reads of a target, the worlds that are `Good`, the targets that
-- are `Fit` (which may fix the device of the root, say), and for each directory the `children` that reading it gives, what it gains alone, and how many directories its
-- tree has and what they gain in `total`.
pub record Plan (W : Type 0) : Type 1 where
  pub env : Env W
  pub cfg : WalkConfig
  pub dir_fuel : ℕ
  pub root_err : W → Bool × W
  pub measure : TargetScan → ℕ
  pub Good : W → Type 0
  pub Fit : TargetScan → Type 0
  pub children : DirRef → List DirRef
  pub gain : DirRef → ℕ
  pub nodes : DirRef → ℕ
  pub total : DirRef → ℕ

-- Directories that stay as they are, so that reading one for a target that is fit gives its children,
-- and adds its gain to the measure, modulo 2 ^ 64, whatever the target has counted before; the numbers of their trees are those of finite trees; no context ends; and
-- the measure reads neither the pending directories nor the latch.
module _ {W : Type 0} (plan : Plan W) where
  open plan use {env, cfg, dir_fuel, root_err, measure, Good, Fit, children, gain, nodes, total}

  pub record Steady : Type 0 where
    pub on_time : (w : W) → Good w → ((env.ctx_err w).0 ≡ false) × Good (env.ctx_err w).1
    pub root_live : (w : W) → Good w → ((root_err w).0 ≡ false) × Good (root_err w).1
    pub walked :
        (ref : DirRef) (t : TargetScan) (w : W)
        → Good w
        → t.abandoned ≡ false
        → Fit t
        → (t' : TargetScan) × (w' : W) × (process_dir env cfg ref dir_fuel t w
            ≡ some (children ref, (t', w')))
          × Good w'
          × (t'.abandoned ≡ false)
          × (t'.pending ≡ t.pending)
          × Fit t'
          × (measure t' % 2 ^ 64 ≡ (measure t + gain ref) % 2 ^ 64)
    pub measured :
        (t : TargetScan) (p : ℕ) (d : Bool)
        → measure (record t { pending = p; done = d }) ≡ measure t
    pub kept :
        (t : TargetScan) (p : ℕ) (d : Bool) → Fit t → Fit (record t { pending = p; done = d })
    pub all_nodes : (ref : DirRef) → nodes ref ≡ 1 + weigh nodes (children ref)
    pub all_gains : (ref : DirRef) → total ref ≡ gain ref + weigh total (children ref)

-- The pending directories of each target are those that are queued and those that are held, and a target
-- with pending directories is fit.
pub record Sound {W : Type 0} (Good : W → Type 0) (Fit : TargetScan → Type 0) (held : ℕ → ℕ)
    (c : Cycle W) : Type 0 where
  pub live : c.pool.closed ≡ false
  pub good : Good c.world
  pub free : (o : ℕ) → (c.targets o).abandoned ≡ false
  pub counted : (o : ℕ) → (c.targets o).pending ≡ weigh (on o one) (queue c) + held o
  pub fit : (o : ℕ) → 0 < (c.targets o).pending → Fit (c.targets o)

abbrev pub none_held : ℕ → ℕ
none_held o = 0

module _ {W : Type 0} (plan : Plan W) (steady : Steady plan) where
  open plan use {env, cfg, dir_fuel, root_err, measure, Good, Fit, children, gain, nodes, total}

  -- What the visit of `r` does.
  pub record Visited (r : WorkRef) (c c' : Cycle W) : Type 0 where
    pub sound : Sound Good Fit none_held c'
    pub queued :
        (f : WorkRef → ℕ)
        → weigh f (queue c') ≡ weigh f (queue c) + weigh f (map (owned_by r.owner) (children r.dir))
    pub other : (o : ℕ) → nat_beq r.owner o ≡ false → c'.targets o ≡ c.targets o
    pub gained :
        measure (c'.targets r.owner) % 2 ^ 64 ≡ (measure (c.targets r.owner) + gain r.dir) % 2 ^ 64
    pub finished : weigh (on r.owner one) (queue c') ≡ 0 → (c'.targets r.owner).done ≡ true

  length-le-nodes : (dirs : List DirRef) → length dirs ≤ weigh nodes dirs
  unfolding weigh
  length-le-nodes [] = omega arith
  length-le-nodes (dir ∷ dirs) = omega (arith, length-le-nodes dirs, steady.all_nodes dir)

  owned_one :
      (o o' : ℕ) (dirs : List DirRef)
      → weigh (on o one) (map (owned_by o') dirs) ≡ (if nat_beq o' o then length dirs else 0)
  owned_one o o' dirs = ground (arith, weigh-owned_by o o' one dirs, weigh-one dirs)

  module _ (r : WorkRef) (c : Cycle W) (s : Sound Good Fit (λ o. on o one r) c)
      (few : weigh (on r.owner one) (queue c) + nodes r.dir < 2 ^ 64) (t' : TargetScan) (w' w'' : W)
      (good : Good w'') (free : t'.abandoned ≡ false)
      (pending : t'.pending ≡ (c.targets r.owner).pending) (fit : Fit t')
      (grown : measure t' % 2 ^ 64 ≡ (measure (c.targets r.owner) + gain r.dir) % 2 ^ 64) where
    abbrev dirs : List DirRef
    dirs = children r.dir

    abbrev after : Cycle W
    after = record (publish_children r.owner dirs t' w' c) { world = w'' }

    published : Published r.owner t' w' c (length dirs) (after.targets r.owner)
    published = publish_children-Published r.owner t' w' c dirs

    other_targets : (o : ℕ) → nat_beq r.owner o ≡ false → after.targets o ≡ c.targets o
    other_targets o h = publish_children-other r.owner t' w' c dirs o h

    queued_after :
        (f : WorkRef → ℕ)
        → weigh f (queue after) ≡ weigh f (queue c) + weigh f (map (owned_by r.owner) dirs)
    queued_after f = publish_children-weigh r.owner t' w' c f dirs

    pending_after :
        (o : ℕ) → (after.targets o).pending ≡ weigh (on o one) (queue after) + none_held o
    pending_after o = elim (Bool-cases (nat_beq r.owner o)) [
      | inl same ↦
          subst (λ (k : ℕ). (after.targets k).pending ≡ weigh (on k one) (queue after) + 0)
            ((nat_beq_iff r.owner o).0 same) own
      | inr distinct ↦ ground (
        arith,
        distinct,
        ap (λ (t : TargetScan). t.pending) (other_targets o distinct),
        s.counted o,
        queued_after (on o one),
        owned_one o r.owner dirs,
      )
    ]
      where
        own : (after.targets r.owner).pending ≡ weigh (on r.owner one) (queue after) + 0
        own = ground (
          arith,
          published.pending,
          pending,
          s.counted r.owner,
          few,
          steady.all_nodes r.dir,
          length-le-nodes dirs,
          queued_after (on r.owner one),
          owned_one r.owner r.owner dirs,
        )

    measure-flags :
        (a b : TargetScan)
        → ((p : ℕ) (d : Bool)
            → record a { pending = p; done = d } ≡ record b { pending = p; done = d })
        → measure a ≡ measure b
    measure-flags a b same =
        sym (steady.measured a 0 false) ∙ ap measure (same 0 false) ∙ steady.measured b 0 false

    free_after : (o : ℕ) → (after.targets o).abandoned ≡ false
    free_after o = elim (Bool-cases (nat_beq r.owner o)) [
      | inl same ↦
          subst (λ (k : ℕ). (after.targets k).abandoned ≡ false) ((nat_beq_iff r.owner o).0 same)
            (ap (λ (t : TargetScan). t.abandoned) (published.flags 0 false) ∙ free)
      | inr distinct ↦ ap (λ (t : TargetScan). t.abandoned) (other_targets o distinct) ∙ s.free o
    ]

    fit_after : (o : ℕ) → 0 < (after.targets o).pending → Fit (after.targets o)
    fit_after o some_left = elim (Bool-cases (nat_beq r.owner o)) [
      | inl same ↦
          let mine = after.targets r.owner in
          subst (λ (k : ℕ). Fit (after.targets k)) ((nat_beq_iff r.owner o).0 same)
            (subst Fit (sym (published.flags mine.pending mine.done))
              (steady.kept t' mine.pending mine.done fit))
      | inr distinct ↦
          let same = other_targets o distinct in
          subst Fit (sym same) (s.fit o (subst (λ (t : TargetScan). 0 < t.pending) same some_left))
    ]

    after-Visited : Visited r c after
    after-Visited = record {
      sound = record {
        live = publish_children-closed r.owner t' w' c dirs ∙ s.live;
        good = good;
        free = free_after;
        counted = pending_after;
        fit = fit_after;
      };
      queued = queued_after;
      other = other_targets;
      gained =
          ap (λ n. n % 2 ^ 64) (measure-flags (after.targets r.owner) t' published.flags) ∙ grown;
      finished = λ empty. published.finished (omega (arith, pending_after r.owner, empty));
    }

  visit_lem :
      (r : WorkRef) (c : Cycle W) (t' : TargetScan) (w' : W)
      → (env.ctx_err c.world).0 ≡ false
      → (c.targets r.owner).abandoned ≡ false
      → process_dir env cfg r.dir dir_fuel (c.targets r.owner) (env.ctx_err c.world).1
        ≡ some (children r.dir, (t', w'))
      → (root_err w').0 ≡ false
      → visit env cfg dir_fuel root_err r c
        ≡ some (
          false,
          record (publish_children r.owner (children r.dir) t' w' c) { world = (root_err w').1 },
        )
  unfolding visit
  visit_lem r c t' w' soon free done live =
      let same = publish_children-world r.owner t' w' c (children r.dir) in
      simp (free, soon, done) (simp (same, live) refl)

  pub visit-Visited :
      (r : WorkRef) (c : Cycle W)
      → Sound Good Fit (λ o. on o one r) c
      → weigh (on r.owner one) (queue c) + nodes r.dir < 2 ^ 64
      → (c' : Cycle W) × (visit env cfg dir_fuel root_err r c ≡ some (false, c')) × Visited r c c'
  visit-Visited r c s few =
      let (soon, good₁) = steady.on_time c.world s.good in
      let (t', w', done, good₂, free, pending, fit, grown) =
        steady.walked r.dir (c.targets r.owner) (env.ctx_err c.world).1 good₁ (s.free r.owner)
          (s.fit r.owner (ground (arith, s.counted r.owner))) in
      let (live, good₃) = steady.root_live w' good₂ in
      (
        after r c s few t' w' (root_err w').1 good₃ free pending fit grown,
        visit_lem r c t' w' soon (s.free r.owner) done live,
        after-Visited r c s few t' w' (root_err w').1 good₃ free pending fit grown,
      )
