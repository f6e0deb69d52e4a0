-- ===== src/App/Start.antt =====
-- `newApp` (cmd/directory-size-exporter/main.go): a program that starts is sound.
use directory_size_exporter.Base.{
  ℕ, ◌≡◌, refl, sym, ◌⊎◌, inl, inr, Bool, Bool-cases, Option-cases, List, [], str_eq, arith, ◌∙◌,
  subst,
}
use directory_size_exporter.State.{new_store}
use directory_size_exporter.State.Validity.{new_store-IsValid}
use directory_size_exporter.Targets.{
  Resolution, Host, ResolveError, resolve, paths_of, new_resolver,
}
use directory_size_exporter.Schedprio.{parse_io_class}
use directory_size_exporter.App.{Config, Application, first_state, new_app, Event, run}
use directory_size_exporter.App.Soundness.{IsSound, resolve-tracked, order_set_targets, run-IsSound}

-- A start that succeeds comes from a pass that succeeds and gives some target.
pub new_app_lem :
    (host : Host) (registered : Bool) (now : ℕ) (cfg : Config) (a : Application)
    → new_app host registered now cfg ≡ inl a
    → (initial : Resolution) × ((resolve host now (new_resolver cfg.target_patterns cfg.targets)).0
        ≡ inl initial)
      × (a
          ≡ first_state cfg
              (resolve host now (new_resolver cfg.target_patterns cfg.targets)).1
              initial)
unfolding new_app
new_app_lem host registered now cfg a h =
    by_answer (resolve host now (new_resolver cfg.target_patterns cfg.targets)).0 refl
  where
    by_answer :
        (answer : Resolution ⊎ ResolveError)
        → (resolve host now (new_resolver cfg.target_patterns cfg.targets)).0 ≡ answer
        → (initial : Resolution) × ((resolve host now
              (new_resolver cfg.target_patterns cfg.targets)).0
            ≡ inl initial)
          × (a
              ≡ first_state cfg
                  (resolve host now (new_resolver cfg.target_patterns cfg.targets)).1
                  initial)
    by_answer (inr e) failed = absurd (ground (arith, h, failed))
    by_answer (inl initial) done = (
      initial,
      done,
      ground (
        arith,
        h,
        done,
        Option-cases (parse_io_class cfg.scan_io_priority),
        Bool-cases registered,
      ),
    )

new_app-IsSound :
    (host : Host) (registered : Bool) (now : ℕ) (cfg : Config) (a : Application)
    → new_app host registered now cfg ≡ inl a
    → IsSound a
unfolding new_store
new_app-IsSound host registered now cfg a h =
    let (initial, done, same) = new_app_lem host registered now cfg a h in
    let r = new_resolver cfg.target_patterns cfg.targets in
    subst IsSound (sym same) (record {
      valid = new_store-IsValid (paths_of initial.targets) cfg.state;
      keyed = (resolve-tracked host now r initial [] done tt).1;
      tracked = λ k.
          order_set_targets (paths_of initial.targets)
            (record { opts = cfg.state; targets = []; order = [] }) k
          ∙ (resolve-tracked host now r initial k done tt).0;
      cached = tt;
    })

-- Whatever happens after a start that succeeds, the program is sound.
pub started-IsSound :
    (host : Host) (registered : Bool) (now : ℕ) (cfg : Config) (a : Application) (es : List Event)
    → new_app host registered now cfg ≡ inl a
    → IsSound (run host cfg es a)
started-IsSound host registered now cfg a es h =
    run-IsSound host cfg es a (new_app-IsSound host registered now cfg a h)
