-- ===== src/Scan/Worker/Drains.antt =====
-- A worker alone walks whole trees of directories (internal/scan/engine.go).
use directory_size_exporter.Base.{
  ℕ, zero, suc, ◌+◌, ◌%◌, ◌^◌, ◌≤◌, ◌<◌, ◌≡◌, refl, ap, subst, ◌∙◌, true, false, some, List, [],
  ◌∷◌, map, nat_beq, nat_beq_iff, if◌then◌else◌, arith, inl, inr, Bool-cases,
}
use directory_size_exporter.Scan.Target.{TargetScan}
use directory_size_exporter.Scan.Walk.{DirRef}
use directory_size_exporter.Scan.Pool.{got, waiting, next, next_takes_last}
use directory_size_exporter.Scan.Latch.{WorkRef}
use directory_size_exporter.Scan.Worker.{Cycle, parked, owned_by, visit, worker}
use directory_size_exporter.Scan.Worker.Queue.{
  weigh, on, of_any, one, queue, weigh-owned_by, weigh-any, next-weigh, next-closed,
}
use directory_size_exporter.Scan.Worker.Visits.{
  Plan, Steady, Sound, none_held, Visited, visit-Visited,
}

module _ {W : Type 0} (plan : Plan W) (steady : Steady plan) where
  open plan use {env, cfg, dir_fuel, root_err, measure, Good, Fit, children, gain, nodes, total}

  -- What a whole run does.
  record Drained (c c' : Cycle W) : Type 0 where
    empty : (c'.pool.deque ≡ []) × (c'.stack ≡ [])
    gained :
        (o : ℕ)
        → measure (c'.targets o) % 2 ^ 64
          ≡ (measure (c.targets o) + weigh (on o total) (queue c)) % 2 ^ 64
    settled : (o : ℕ) → (c'.targets o).pending ≡ 0
    finished : (o : ℕ) → 0 < weigh (on o one) (queue c) → (c'.targets o).done ≡ true
    untouched : (o : ℕ) → weigh (on o one) (queue c) ≡ 0 → c'.targets o ≡ c.targets o

  -- The worker with the directory that `next` gave it taken from the pool or the stack.
  abbrev taken : Cycle W → Cycle W
  taken c = record c { pool = (next c.pool c.stack).1.0; stack = (next c.pool c.stack).1.1 }

  module _ (r : WorkRef) (c : Cycle W) (s : Sound Good Fit none_held c)
      (e : (next c.pool c.stack).0 ≡ got r) where
    taken-weigh : (f : WorkRef → ℕ) → weigh f (queue c) ≡ f r + weigh f (queue (taken c))
    taken-weigh f = (next-weigh f c.pool c.stack r e).0

    taken-Sound : Sound Good Fit (λ o. on o one r) (taken c)
    taken-Sound = record {
      live = next-closed c.pool c.stack ∙ s.live;
      good = s.good;
      free = s.free;
      fit = s.fit;
      counted = λ o. omega (arith, s.counted o, taken-weigh (on o one));
    }

    weigh_on :
        (o : ℕ) (weight : DirRef → ℕ) (dirs : List DirRef)
        → weigh (on o weight) (map (owned_by r.owner) dirs)
          ≡ (if nat_beq r.owner o then weigh weight dirs else 0)
    weigh_on o weight dirs = weigh-owned_by o r.owner weight dirs

    module _ (c' : Cycle W) (v : Visited plan steady r (taken c) c') where
      gained_once :
          (o : ℕ)
          → measure (c'.targets o) % 2 ^ 64
            ≡ (measure (c.targets o) + (if nat_beq r.owner o then gain r.dir else 0)) % 2 ^ 64
      gained_once o = elim (Bool-cases (nat_beq r.owner o)) [
        | inl same ↦
            subst
              (λ (k : ℕ).
                measure (c'.targets k) % 2 ^ 64
                ≡ (measure (c.targets k) + (if nat_beq r.owner k then gain r.dir else 0)) % 2 ^ 64)
              ((nat_beq_iff r.owner o).0 same) (ground (arith, v.gained))
        | inr distinct ↦ ground (arith, distinct, ap measure (v.other o distinct))
      ]

      queue_of :
          (o : ℕ) (weight : DirRef → ℕ)
          → weigh (on o weight) (queue c') + on o weight r
            ≡ weigh (on o weight) (queue c)
              + (if nat_beq r.owner o then weigh weight (children r.dir) else 0)
      queue_of o weight = omega (
        arith,
        v.queued (on o weight),
        weigh_on o weight (children r.dir),
        taken-weigh (on o weight),
      )

      -- A visit, and the run after it.
      module _ (c'' : Cycle W) (d : Drained c' c'') where
        finished_run : (o : ℕ) → 0 < weigh (on o one) (queue c) → (c''.targets o).done ≡ true
        finished_run o pos = elim (Bool-cases (nat_beq (weigh (on o one) (queue c')) 0)) [
          | inr more ↦ d.finished o (ground (arith, more))
          | inl last ↦ elim (Bool-cases (nat_beq r.owner o)) [
            | inr distinct ↦ absurd (ground (arith, pos, last, distinct, queue_of o one))
            | inl same ↦
                let none_left : weigh (on o one) (queue c') ≡ 0 = ground (arith, last) in
                let e = (nat_beq_iff r.owner o).0 same in
                ap (λ (t : TargetScan). t.done) (d.untouched o none_left)
                ∙ subst (λ (k : ℕ). weigh (on k one) (queue c') ≡ 0 → (c'.targets k).done ≡ true) e
                    v.finished none_left
          ]
        ]

        untouched_run : (o : ℕ) → weigh (on o one) (queue c) ≡ 0 → c''.targets o ≡ c.targets o
        untouched_run o none_left =
            let distinct : nat_beq r.owner o ≡ false =
              ground (arith, none_left, taken-weigh (on o one)) in
            let empty : weigh (on o one) (queue c') ≡ 0 =
              ground (arith, none_left, distinct, queue_of o one) in
            d.untouched o empty ∙ v.other o distinct

        step-Drained : Drained c c''
        step-Drained = record {
          empty = d.empty;
          gained = λ o.
              ground (arith, d.gained o, gained_once o, queue_of o total, steady.all_gains r.dir);
          settled = d.settled;
          finished = finished_run;
          untouched = untouched_run;
        }

  parked-Drained :
      (c : Cycle W) → Sound Good Fit none_held c → c.stack ≡ [] → c.pool.deque ≡ [] → Drained c c
  unfolding weigh
  parked-Drained c s no_stack no_deque =
      let nothing : (f : WorkRef → ℕ) → weigh f (queue c) ≡ 0 = λ f. rw (no_stack, no_deque) refl in
      record {
        empty = (no_deque, no_stack);
        gained = λ o. omega (arith, nothing (on o total));
        settled = λ o. omega (arith, s.counted o, nothing (on o one));
        finished = λ o pos. absurd (omega (arith, pos, nothing (on o one)));
        untouched = λ o none_left. refl;
      }

  worker-parked :
      (fuel : ℕ) (c : Cycle W)
      → (next c.pool c.stack).0 ≡ waiting
      → worker env cfg dir_fuel root_err (suc fuel) c ≡ some (parked, c)
  unfolding worker
  worker-parked fuel c e = ground (arith, e)

  worker-visits :
      (fuel : ℕ) (r : WorkRef) (c c' : Cycle W)
      → (next c.pool c.stack).0 ≡ got r
      → visit env cfg dir_fuel root_err r (taken c) ≡ some (false, c')
      → worker env cfg dir_fuel root_err (suc fuel) c ≡ worker env cfg dir_fuel root_err fuel c'
  unfolding worker
  worker-visits fuel r c c' e v = ground (arith, e, v)

  on-one-le : (o : ℕ) (rs : List WorkRef) → weigh (on o one) rs ≤ weigh (of_any nodes) rs
  unfolding weigh
  on-one-le o [] = omega arith
  on-one-le o (r ∷ rs) = ground (arith, on-one-le o rs, steady.all_nodes r.dir)

  worker-Drained :
      (fuel : ℕ) (c : Cycle W)
      → Sound Good Fit none_held c
      → weigh (of_any nodes) (queue c) < 2 ^ 64
      → weigh (of_any nodes) (queue c) < fuel
      → (c' : Cycle W) × (worker env cfg dir_fuel root_err fuel c ≡ some (parked, c'))
        × Drained c c'
  worker-Drained zero c s few enough = absurd (omega (arith, enough))
  worker-Drained (suc fuel) c s few enough = elim (next_takes_last c.pool c.stack) [
    | inl (r, e, _, _) ↦
        let all = taken-weigh r c s e (of_any nodes) in
        let (c', visited, v) =
          visit-Visited plan steady r (taken c) (taken-Sound r c s e)
            (omega (arith, few, all, on-one-le r.owner (queue (taken c)))) in
        let less : weigh (of_any nodes) (queue c') + 1 ≡ weigh (of_any nodes) (queue c) = omega (
          arith,
          all,
          v.queued (of_any nodes),
          weigh-any r.owner nodes (children r.dir),
          steady.all_nodes r.dir,
        ) in
        let (c'', run, d) =
          worker-Drained fuel c' v.sound (omega (arith, few, less)) (omega (arith, enough, less)) in
        (c'', worker-visits fuel r c c' e visited ∙ run, step-Drained r c s e c' v c'' d)
    | inr (_, _, inl (e, over)) ↦ absurd (ground (arith, over, s.live))
    | inr (_, _, inr (e, no_stack, no_deque)) ↦
        (c, worker-parked fuel c e, parked-Drained c s no_stack no_deque)
  ]

-- A worker that is alone on the pool, while no context ends and no target is abandoned, walks every
-- queued tree of directories that stay as they are, to its end, with fuel above the number of their
-- directories (which is below 2 ^ 64), however much of its stack it donates on the way: it then waits
-- with nothing queued; each target has gained, modulo 2 ^ 64, what all the directories of its trees
-- gain, by any measure to which each of them adds the same for every target that is fit, whatever was
-- counted before (so not by the sizes of hard-linked files that are counted once); nothing is pending; a
-- target that had a directory queued has its latch closed; and no other target has changed.
pub worker_drains :
    {W : Type 0} (plan : Plan W)
    → Steady plan
    → (fuel : ℕ) (c : Cycle W) → Sound plan.Good plan.Fit none_held c
    → weigh (of_any plan.nodes) (queue c) < 2 ^ 64
    → weigh (of_any plan.nodes) (queue c) < fuel
    → (c' : Cycle W) × (worker plan.env plan.cfg plan.dir_fuel plan.root_err fuel c
        ≡ some (parked, c'))
      × (c'.pool.deque ≡ [])
      × (c'.stack ≡ [])
      × ((o : ℕ)
          → (plan.measure (c'.targets o) % 2 ^ 64
              ≡ (plan.measure (c.targets o) + weigh (on o plan.total) (queue c)) % 2 ^ 64)
            × ((c'.targets o).pending ≡ 0)
            × (0 < weigh (on o one) (queue c) → (c'.targets o).done ≡ true)
            × (weigh (on o one) (queue c) ≡ 0 → c'.targets o ≡ c.targets o))
worker_drains plan steady fuel c s few enough =
    let (c', run, d) = worker-Drained plan steady fuel c s few enough in
    (c', run, d.empty.0, d.empty.1, λ o. (d.gained o, d.settled o, d.finished o, d.untouched o))
