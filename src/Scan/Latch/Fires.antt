-- ===== src/Scan/Latch/Fires.antt =====
-- When the latch of a target fires.
use directory_size_exporter.Base.{ℕ, ◌^◌, ◌<◌, ◌≡◌, ◌||◌, List, nat_beq, arith, sym, subst}
use directory_size_exporter.Base.Family.{change}
use directory_size_exporter.Scan.Target.{TargetScan, complete_dir}
use directory_size_exporter.Scan.Latch.{
  WorkRef, looking, finishing, on_target, Move, complete, System, work, Reach, later,
}
use directory_size_exporter.Scan.Latch.Invariant.{Reach-Inv, outstanding}

-- The system after worker `i` has completed the directory `r`.
abbrev pub completed : ℕ → WorkRef → List WorkRef → System → System
completed i r stack s = record s {
  shared = on_target r.owner complete_dir s.shared;
  workers = change i (looking stack) s.workers;
}

done-complete_dir :
    (t : TargetScan) → (complete_dir t).done ≡ (t.done || nat_beq (complete_dir t).pending 0)
unfolding complete_dir
done-complete_dir t = ground arith

pending-complete_dir : (t : TargetScan) → (complete_dir t).pending < 2 ^ 64
unfolding complete_dir
pending-complete_dir t = ground arith

completed-Reach :
    (n : ℕ) (s : System) (i : ℕ) (r : WorkRef) (stack : List WorkRef)
    → Reach n s
    → i < n
    → s.workers i ≡ finishing r stack
    → Reach n (completed i r stack s)
completed-Reach n s i r stack reach lt here = later reach (
    work i lt (
      subst (λ p. Move s.shared p (on_target r.owner complete_dir s.shared) (looking stack))
        (sym here) complete))

-- In every reachable state, however the workers interleave, the completion of a directory closes the
-- latch of its target, unless it was closed before, exactly when no directory of the target is left:
-- none in the shared deque, on the stack or in the hands of a worker, about to be pushed, or lost.
-- It assumes that fewer than 2 ^ 64 directories are outstanding.
pub latch_fires_last :
    (n : ℕ) (s : System) (i : ℕ) (r : WorkRef) (stack : List WorkRef)
    → Reach n s
    → i < n
    → s.workers i ≡ finishing r stack
    → outstanding n r.owner (completed i r stack s) < 2 ^ 64
    → ((completed i r stack s).shared.targets r.owner).done ≡ (
        (s.shared.targets r.owner).done
        || nat_beq (outstanding n r.owner (completed i r stack s)) 0)
latch_fires_last n s i r stack reach lt here few =
    let counted = (Reach-Inv (completed-Reach n s i r stack reach lt here)).counted r.owner in
    ground (
      arith,
      done-complete_dir (s.shared.targets r.owner),
      pending-complete_dir (s.shared.targets r.owner),
      counted,
    )
