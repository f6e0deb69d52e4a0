-- ===== src/Tests/Latches.antt =====
-- An example for the latch of a target in internal/scan/engine.go: one worker, one target, and a root
-- without children.
use directory_size_exporter.Base.{◌≡◌, refl, ◌||◌, [], ◌∷◌, arith, nat_beq}
use directory_size_exporter.Base.Family.{change, sum_below}
use directory_size_exporter.Scan.Target.{new_target_scan, add_pending}
use directory_size_exporter.Scan.Pool.{new_pool, push_shared, pop_last}
use directory_size_exporter.Scan.Latch.{
  WorkRef, looking, holding, finishing, owned, on_target, pop_shared, discard, ready, reserved,
  System, work, launch, enqueue, IsStart, Reach, start, later,
}
use directory_size_exporter.Scan.Latch.Invariant.{out, outstanding}
use directory_size_exporter.Scan.Latch.Fires.{completed, latch_fires_last}
use directory_size_exporter.Tests.{day}

abbrev root_ref : WorkRef
root_ref = record { owner = 0; dir = record { path = day; depth = 0 } }

abbrev at_start : System
at_start = record {
  shared = record {
    pool = new_pool 8 2;
    targets = λ t. new_target_scan day 50 1000;
    lost = λ t. 0;
  };
  workers = λ i. looking [];
  launcher = ready;
}

at_start-IsStart : IsStart at_start
unfolding new_pool new_target_scan
at_start-IsStart = record {
  empty = refl;
  none_pending = λ t. refl;
  none_lost = λ t. refl;
  idle = λ i. refl;
  at_rest = refl;
}

-- The root is reserved, pushed, taken, and left unread.
abbrev after_launch : System
after_launch = record at_start {
  shared = on_target 0 (add_pending 1) at_start.shared;
  launcher = reserved root_ref;
}

abbrev after_enqueue : System
after_enqueue = record after_launch {
  shared = record (after_launch.shared) {
    pool = push_shared (root_ref ∷ []) after_launch.shared.pool;
  };
  launcher = ready;
}

abbrev after_pop : System
after_pop = record after_enqueue {
  shared = record (after_enqueue.shared) {
    pool = record (after_enqueue.shared.pool) { deque = [] };
  };
  workers = change 0 (holding root_ref []) after_enqueue.workers;
}

abbrev before_complete : System
before_complete = record after_pop { workers = change 0 (finishing root_ref []) after_pop.workers }

reaches : Reach 1 before_complete
unfolding new_pool push_shared pop_last
reaches =
    later
      (later (later (later (start at_start-IsStart) (launch root_ref refl)) (enqueue root_ref refl))
        (work 0 (omega arith) (pop_shared refl)))
      (work 0 (omega arith) discard)

latch_fires_last_example : ((completed 0 root_ref [] before_complete).shared.targets 0).done ≡ (
    (before_complete.shared.targets 0).done
    || nat_beq (outstanding 1 0 (completed 0 root_ref [] before_complete)) 0)
unfolding outstanding out owned sum_below
latch_fires_last_example =
    latch_fires_last 1 before_complete 0 root_ref [] reaches (omega arith) refl (omega arith)
