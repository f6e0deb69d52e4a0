-- ===== src/Scan/Latch.antt =====
-- The workers of internal/scan/engine.go, interleaved in any order over one pool, with the pending
-- counter and the latch of each target. A step is one atomic operation: a pop, the read of a
-- directory, `addPending`, `push`, `completeDir`. `n` workers run; the targets are numbered.
pub mod Invariant
pub mod Fires
use directory_size_exporter.Base.{
  ℕ, ◌+◌, ◌≡◌, ◌<◌, Bool, true, false, Option, none, some, List, [], ◌∷◌, ◌++◌, if◌then◌else◌, All,
  length, nat_beq,
}
use directory_size_exporter.Base.Family.{change}
use directory_size_exporter.Scan.Target.{TargetScan, add_pending, complete_dir, abandon}
use directory_size_exporter.Scan.Walk.{DirRef}
use directory_size_exporter.Scan.Pool.{Pool, push_shared, push, pop_last, close}

-- A queued `dirRef` with its target.
pub record WorkRef : Type 0 where
  pub owner : ℕ
  pub dir : DirRef

-- Where a worker stands in its loop, with its local stack.
pub data Worker : Type 0 where
  looking : List WorkRef → Worker  -- before `next`
  holding : WorkRef → List WorkRef → Worker  -- after `next`
  found : WorkRef → List WorkRef → List WorkRef → Worker  -- children read, before `addPending`
  publishing : WorkRef → List WorkRef → List WorkRef → Worker  -- before `push`
  finishing : WorkRef → List WorkRef → Worker  -- before `completeDir`
  gone : Worker  -- returned

-- What the workers share. `lost` is not in the program: it counts, for each target, the directories
-- that a returning worker drops with its stack, and those that `close` drops.
pub record Shared : Type 0 where
  pub pool : Pool WorkRef
  pub targets : ℕ → TargetScan
  pub lost : ℕ → ℕ

-- How many of the directories belong to target `t`.
unfoldable pub owned : ℕ → List WorkRef → ℕ
owned t [] = 0
owned t (r ∷ rs) = (if nat_beq r.owner t then 1 else 0) + owned t rs

abbrev pub on_target : ℕ → (TargetScan → TargetScan) → Shared → Shared
on_target t f m = record m { targets = change t (f (m.targets t)) m.targets }

abbrev pub lose : List WorkRef → Shared → Shared
lose rs m = record m { lost = λ t. m.lost t + owned t rs }

-- One step of one worker. Whether a target is stopping, what a directory holds and whether the root
-- context has an error is left open.
pub data Move (m : Shared) : Worker → Shared → Worker → Type 0 where
  pop_local :
      {stack rest : List WorkRef} {r : WorkRef}
      → pop_last stack ≡ some (rest, r)
      → Move m (looking stack) m (holding r rest)
  pop_shared :
      {rest : List WorkRef} {r : WorkRef}
      → pop_last m.pool.deque ≡ some (rest, r)
      → Move m (looking []) (record m { pool = record (m.pool) { deque = rest } }) (holding r [])
  end : {stack : List WorkRef} → m.pool.closed ≡ true → Move m (looking stack) (lose stack m) gone
  discard : {r : WorkRef} {stack : List WorkRef} → Move m (holding r stack) m (finishing r stack)
  read :
      {r : WorkRef} {stack : List WorkRef} (children : List WorkRef)
      → All (λ (c : WorkRef). c.owner ≡ r.owner) children
      → Move m (holding r stack) m (found r children stack)
  reserve :
      {r : WorkRef} {children stack : List WorkRef}
      → Move m
          (found r children stack)
          (on_target r.owner (add_pending (length children)) m)
          (publishing r children stack)
  publish :
      {r : WorkRef} {children stack : List WorkRef}
      → Move m
          (publishing r children stack)
          (record m { pool = (push children m.pool stack).0 })
          (finishing r (push children m.pool stack).1)
  complete :
      {r : WorkRef} {stack : List WorkRef}
      → Move m (finishing r stack) (on_target r.owner complete_dir m) (looking stack)
  quit :
      {r : WorkRef} {stack : List WorkRef}
      → Move m (finishing r stack) (lose stack (on_target r.owner complete_dir m)) gone

-- `ScanAll` itself: between the reservation of a root and its push, or not.
pub data Launcher : Type 0 where
  ready : Launcher
  reserved : WorkRef → Launcher

pub record System : Type 0 where
  pub shared : Shared
  pub workers : ℕ → Worker
  pub launcher : Launcher

pub data Step (n : ℕ) (s : System) : System → Type 0 where
  work :
      (i : ℕ) {m : Shared} {p : Worker}
      → i < n
      → Move s.shared (s.workers i) m p
      → Step n s (record s { shared = m; workers = change i p s.workers })
  launch :
      (r : WorkRef)
      → s.launcher ≡ ready
      → Step n s
          (record s { shared = on_target r.owner (add_pending 1) s.shared; launcher = reserved r })
  enqueue :
      (r : WorkRef)
      → s.launcher ≡ reserved r
      → Step n s (record s {
        shared = record (s.shared) { pool = push_shared (r ∷ []) s.shared.pool };
        launcher = ready;
      })
  give_up : (t : ℕ) → Step n s (record s { shared = on_target t abandon s.shared })
  shut : Step n s (record s {
    shared = lose s.shared.pool.deque (record (s.shared) { pool = close s.shared.pool });
  })

-- The start of a cycle: nothing is queued, and every target is new.
pub record IsStart (s : System) : Type 0 where
  pub empty : s.shared.pool.deque ≡ []
  pub none_pending : (t : ℕ) → (s.shared.targets t).pending ≡ 0
  pub none_lost : (t : ℕ) → s.shared.lost t ≡ 0
  pub idle : (i : ℕ) → s.workers i ≡ looking []
  pub at_rest : s.launcher ≡ ready

pub data Reach (n : ℕ) : System → Type 0 where
  start : {s : System} → IsStart s → Reach n s
  later : {s s' : System} → Reach n s → Step n s s' → Reach n s'
