-- ===== src/App/Readiness.antt =====
-- Readiness (cmd/directory-size-exporter/main.go): `firstCycleComplete`.
use directory_size_exporter.Base.{
  ℕ, ◌≡◌, refl, Bool, false, not, ◌&&◌, ◌||◌, Option-cases, List, [], ◌∷◌, arith, ◌⊎◌, inl, inr,
  Str,
}
use directory_size_exporter.Base.Dict.{is_some}
use directory_size_exporter.Targets.{Host, Resolution, ResolveError, resolve}
use directory_size_exporter.Collector.Filesystem.{Answer}
use directory_size_exporter.App.{
  Config, Application, unlocked, resolving, resolved, Reloading, resolve_step, take_answer,
  apply_step, start_cycle, store_of, Event, reload_requested, targets_resolved, targets_applied,
  cycle_started, scan_started, scan_finished, cycle_finished, step, run,
}
use directory_size_exporter.State.{targets_of}

-- A running cycle comes to its end with `ScanAll` true, and no shutdown has begun.
abbrev pub completes : Event → Application → Bool
completes (cycle_finished finished cancelled) a = is_some a.cycle && (finished && not cancelled)
completes e a = false

ready-resolve_step :
    (host : Host) (now : ℕ) (m : Reloading) (a : Application)
    → (resolve_step host now m a).first_cycle_complete ≡ a.first_cycle_complete
ready-resolve_step host now unlocked a = refl
ready-resolve_step host now resolving a = taken (resolve host now a.resolver).0
  where
    taken :
        (answer : Resolution ⊎ ResolveError)
        → (take_answer answer (resolve host now a.resolver).1 a).first_cycle_complete
          ≡ a.first_cycle_complete
    taken (inl res) = refl
    taken (inr e) = refl
ready-resolve_step host now (resolved paths) a = refl

ready-apply_step :
    (m : Reloading) (a : Application)
    → (apply_step m a).first_cycle_complete ≡ a.first_cycle_complete
ready-apply_step unlocked a = refl
ready-apply_step resolving a = refl
ready-apply_step (resolved paths) a = refl

ready-start_cycle :
    (cfg : Config) (late : Str → Bool) (query : Str → Answer) (paths : List Str) (a : Application)
    → (start_cycle cfg late query paths a).first_cycle_complete ≡ a.first_cycle_complete
ready-start_cycle cfg late query [] a = refl
ready-start_cycle cfg late query (_ ∷ _) a = refl

module _ (host : Host) (cfg : Config) where
  ready-step :
      (e : Event) (a : Application)
      → (step host cfg e a).first_cycle_complete ≡ (a.first_cycle_complete || completes e a)
  unfolding step
  ready-step reload_requested a = ground arith
  ready-step (targets_resolved now) a = ground (arith, ready-resolve_step host now a.reload_mu a)
  ready-step targets_applied a = ground (arith, ready-apply_step a.reload_mu a)
  ready-step (cycle_started late query) a =
      ground
        (arith, Option-cases a.cycle, ready-start_cycle cfg late query (targets_of (store_of a)) a)
  ready-step (scan_started now t) a = ground (arith, Option-cases a.cycle)
  ready-step (scan_finished now r) a = ground (arith, Option-cases a.cycle)
  ready-step (cycle_finished finished cancelled) a = ground (arith, Option-cases a.cycle)

  -- Whether some cycle completes among the events.
  unfoldable pub completes_any : List Event → Application → Bool
  completes_any [] a = false
  completes_any (e ∷ es) a = completes e a || completes_any es (step host cfg e a)

  -- The program is ready exactly if it was before the events, or a cycle that was running came to its
  -- end among them with `ScanAll` true and no shutdown begun. It stays ready from then on.
  pub ready-run :
      (es : List Event) (a : Application)
      → (run host cfg es a).first_cycle_complete ≡ (a.first_cycle_complete || completes_any es a)
  unfolding run completes_any
  ready-run [] a = ground arith
  ready-run (e ∷ es) a = ground (arith, ready-run es (step host cfg e a), ready-step e a)
