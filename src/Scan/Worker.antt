-- ===== src/Scan/Worker.antt =====
-- The loop of a worker (internal/scan/engine.go), as a run of one worker on the pool. The hook that
-- starts a worker only logs its error.
pub mod Queue
pub mod Visits
pub mod Drains
use directory_size_exporter.Base.{
  ℕ, zero, suc, ◌+◌, ◌≡◌, Bool, true, false, Option, none, some, List, [], ◌∷◌, map, length,
  nat_beq, if◌then◌else◌,
}
use directory_size_exporter.Base.Family.{change}
use directory_size_exporter.Scan.Target.{TargetScan, stopping, add_pending, complete_dir}
use directory_size_exporter.Scan.Walk.{DirRef, Env, WalkConfig, process_dir}
use directory_size_exporter.Scan.Pool.{Pool, Next, got, ended, waiting, push, next}
use directory_size_exporter.Scan.Latch.{WorkRef}

-- What the worker works on: the pool, its stack, the targets by their numbers, and the world.
pub record Cycle (W : Type 0) : Type 0 where
  pub pool : Pool WorkRef
  pub stack : List WorkRef
  pub targets : ℕ → TargetScan
  pub world : W

-- How the worker stops: it returns, or it waits in `next` for other workers.
pub data Halt : Type 0 where
  returned parked : Halt

abbrev pub owned_by : ℕ → DirRef → WorkRef
owned_by o dir = record { owner = o; dir = dir }

-- `addPending` and `push` of the children, where there are any, and `completeDir`.
unfoldable pub publish_children :
    {W : Type 0} → ℕ → List DirRef → TargetScan → W → Cycle W → Cycle W
publish_children o [] t w c = record c { targets = change o (complete_dir t) c.targets; world = w }
publish_children o (dir ∷ dirs) t w c =
    let (pool, stack) = push (map (owned_by o) (dir ∷ dirs)) c.pool c.stack in
    record {
      pool = pool;
      stack = stack;
      targets = change o (complete_dir (add_pending (length (dir ∷ dirs)) t)) c.targets;
      world = w;
    }

-- `dir_fuel` is the fuel of the read loop of a directory, and `root_err` the error of the root context.
module _ {W : Type 0} (env : Env W) (cfg : WalkConfig) (dir_fuel : ℕ)
    (root_err : W → Bool × W) where
  -- The body of the loop below `next`, with whether the worker returns; `none` is the end of the fuel
  -- of a directory.
  unfoldable pub visit : WorkRef → Cycle W → Option (Bool × Cycle W)
  visit r c =
      let t = c.targets r.owner in
      let (late, w) = env.ctx_err c.world in
      if stopping late t
      then some (false, record c { targets = change r.owner (complete_dir t) c.targets; world = w })
      else elim (process_dir env cfg r.dir dir_fuel t w) [
        | none ↦ none
        | some (children, (t', w')) ↦
            let c' = publish_children r.owner children t' w' c in
            let (late', w'') = root_err c'.world in some (late', record c' { world = w'' })
      ]

  -- `worker`; `none` is the end of the fuel.
  unfoldable pub worker : ℕ → Cycle W → Option (Halt × Cycle W)
  worker zero c = none
  worker (suc fuel) c =
      let (answer, (pool, stack)) = next c.pool c.stack in
      elim answer [
        | ended ↦ some (returned, c)
        | waiting ↦ some (parked, c)
        | got r ↦ elim (visit r (record c { pool = pool; stack = stack })) [
          | none ↦ none
          | some (true, c') ↦ some (returned, c')
          | some (false, c') ↦ worker fuel c'
        ]
      ]
