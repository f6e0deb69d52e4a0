-- ===== src/App/Reload.antt =====
-- `reload` (cmd/directory-size-exporter/main.go), alone and beside the other goroutines.
use directory_size_exporter.Base.{Sum-cases, ℕ, ◌≡◌, inl, inr, some, [], ◌∷◌, str_eq, arith}
use directory_size_exporter.Targets.{Host, ResolveError, resolve}
use directory_size_exporter.Targets.Pass.{failed_resolve_keeps_known}
use directory_size_exporter.App.{
  Config, unlocked, Application, reload, reload_requested, targets_resolved, targets_applied, step,
  run,
}

-- The three steps of a reload that nothing interrupts are `reload`, where no other reload runs.
pub reload-run :
    (host : Host) (cfg : Config) (now : ℕ) (a : Application)
    → a.reload_mu ≡ unlocked
    → run host cfg (reload_requested ∷ targets_resolved now ∷ targets_applied ∷ []) a
      ≡ (reload host now a).1
unfolding run step reload
reload-run host cfg now a h = elim (Sum-cases (resolve host now a.resolver).0) [
  | inl (res, done) ↦ ground (arith, h, done)
  | inr (e, failed) ↦ ground (arith, h, failed)
]

-- A reload that fails leaves the store, the known targets, the capacities and the readiness as they
-- were.
pub failed_reload_keeps_targets :
    (host : Host) (now : ℕ) (a : Application) (e : ResolveError)
    → (reload host now a).0 ≡ some e
    → ((reload host now a).1.recorder ≡ a.recorder)
      × ((reload host now a).1.resolver.known ≡ a.resolver.known)
      × ((reload host now a).1.fs_cache ≡ a.fs_cache)
      × ((reload host now a).1.first_cycle_complete ≡ a.first_cycle_complete)
unfolding reload
failed_reload_keeps_targets host now a e h = elim (Sum-cases (resolve host now a.resolver).0) [
  | inl (res, done) ↦ absurd (ground (arith, h, done))
  | inr (e', failed) ↦
      ground (arith, failed, failed_resolve_keeps_known host now a.resolver e' failed)
]
