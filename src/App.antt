-- ===== src/App.antt =====
-- cmd/directory-size-exporter/main.go: the components wired together. A reload, a scan cycle and the
-- scans in it are split into the steps between which other goroutines run; the log is left out.
pub mod Soundness
pub mod Start
pub mod Scraped
pub mod Reload
pub mod Readiness
pub mod Limit
pub mod Serve
use directory_size_exporter.Base.{
  ℕ, ◌⊎◌, inl, inr, Bool, true, false, not, ◌&&◌, ◌||◌, Option, none, some, List, [], ◌∷◌, Str,
  if◌then◌else◌,
}
use directory_size_exporter.State
use directory_size_exporter.State.{
  Result, Store, new_store, set_targets, mark_scan_started, targets_of,
}
use directory_size_exporter.Targets
use directory_size_exporter.Targets.{
  Host, Resolver, Resolution, ResolveError, new_resolver, resolve, paths_of,
}
use directory_size_exporter.Schedprio.{parse_io_class}
use directory_size_exporter.Collector.Filesystem.{Answer, Cache, new_cache, refresh}
use directory_size_exporter.Collector.Recorder.{Recorder, record_result, record_started}

-- What `newApp` and the loops read of `config.Resolved`.
pub record Config : Type 0 where
  pub target_patterns : List Str
  pub targets : Targets.Options
  pub state : State.Options
  pub scan_io_priority : Str
  pub scan_histogram : Bool
  pub filesystem : Bool

-- Where the one running `reload` is: before `TryLock`, before `Resolve`, or before `SetTargets`.
pub data Reloading : Type 0 where
  unlocked : Reloading
  resolving : Reloading
  resolved : List Str → Reloading

-- `application`; `cycle` holds the paths of the running cycle.
pub record Application : Type 0 where
  pub resolver : Resolver
  pub recorder : Recorder
  pub fs_cache : Cache
  pub first_cycle_complete : Bool
  pub reload_mu : Reloading
  pub cycle : Option (List Str)

pub data StartError : Type 0 where
  resolve_failed : ResolveError → StartError
  no_target_matched : StartError
  bad_io_class : StartError
  not_registered : StartError

abbrev pub store_of : Application → Store
store_of a = a.recorder.store

-- What `newApp` returns, from its first resolution.
abbrev pub first_state : Config → Resolver → Resolution → Application
first_state cfg resolver initial = record {
  resolver = resolver;
  recorder = record { store = new_store (paths_of initial.targets) cfg.state; observed = [] };
  fs_cache = new_cache;
  first_cycle_complete = false;
  reload_mu = unlocked;
  cycle = none;
}

-- `newApp`; `registered` says that Prometheus takes both collectors.
unfoldable pub new_app : Host → Bool → ℕ → Config → Application ⊎ StartError
new_app host registered now cfg =
    let (answer, resolver) = resolve host now (new_resolver cfg.target_patterns cfg.targets) in
    elim answer [
      | inr e ↦ inr (resolve_failed e)
      | inl initial ↦ elim initial.targets [
        | [] ↦ inr no_target_matched
        | _ ∷ _ ↦ elim (parse_io_class cfg.scan_io_priority) [
          | none ↦ inr bad_io_class
          | some _ ↦
              if registered then inl (first_state cfg resolver initial) else inr not_registered
        ]
      ]
    ]

abbrev pub set_store : Store → Application → Application
set_store s a = record a { recorder = record a.recorder { store = s } }

-- `reload`, when nothing runs beside it: its error, and the application after it.
unfoldable pub reload : Host → ℕ → Application → Option ResolveError × Application
reload host now a =
    let (answer, resolver) = resolve host now a.resolver in
    elim answer [
      | inr e ↦ (some e, record a { resolver = resolver })
      | inl resolution ↦ (
        none,
        record a {
          resolver = resolver;
          recorder = record a.recorder {
            store = set_targets (paths_of resolution.targets) (store_of a);
          };
        },
      )
    ]

-- One step of one goroutine. `late` and `query` are what the context and the host answer to the
-- refresh of the capacities; `finished` is what `ScanAll` returns.
pub data Event : Type 0 where
  reload_requested : Event
  targets_resolved : (now : ℕ) → Event
  targets_applied : Event
  cycle_started : (late : Str → Bool) (query : Str → Answer) → Event
  scan_started : (now : ℕ) → Str → Event
  scan_finished : (now : ℕ) → Result → Event
  cycle_finished : (finished cancelled : Bool) → Event

-- `TryLock`: a request beside a running reload returns at once.
abbrev pub request_reload : Reloading → Reloading
request_reload unlocked = resolving
request_reload running = running

-- The holder of the lock resolves; an error gives the lock back.
abbrev pub take_answer : Resolution ⊎ ResolveError → Resolver → Application → Application
take_answer (inr _) resolver a = record a { resolver = resolver; reload_mu = unlocked }
take_answer (inl resolution) resolver a = record a {
  resolver = resolver;
  reload_mu = resolved (paths_of resolution.targets);
}

abbrev pub resolve_step : Host → ℕ → Reloading → Application → Application
resolve_step host now resolving a =
    let (answer, resolver) = resolve host now a.resolver in take_answer answer resolver a
resolve_step host now other a = a

abbrev pub apply_step : Reloading → Application → Application
apply_step (resolved paths) a = record (set_store (set_targets paths (store_of a)) a) {
  reload_mu = unlocked;
}
apply_step other a = a

-- `runCycle` up to `ScanAll`.
abbrev pub start_cycle :
    Config → (Str → Bool) → (Str → Answer) → List Str → Application → Application
start_cycle cfg late query [] a = a
start_cycle cfg late query (path ∷ paths) a = record a {
  fs_cache = if cfg.filesystem then refresh late query (path ∷ paths) a.fs_cache else a.fs_cache;
  cycle = some (path ∷ paths);
}

module _ (host : Host) (cfg : Config) where
  unfoldable pub step : Event → Application → Application
  step reload_requested a = record a { reload_mu = request_reload a.reload_mu }
  step (targets_resolved now) a = resolve_step host now a.reload_mu a
  step targets_applied a = apply_step a.reload_mu a
  step (cycle_started late query) a = elim a.cycle [
    | none ↦ start_cycle cfg late query (targets_of (store_of a)) a
    | some _ ↦ a
  ]
  step (scan_started now target) a = elim a.cycle [
    | none ↦ a
    | some _ ↦ record a { recorder = record_started now target a.recorder }
  ]
  step (scan_finished now r) a = elim a.cycle [
    | none ↦ a
    | some _ ↦ record a { recorder = record_result cfg.scan_histogram now r a.recorder }
  ]
  step (cycle_finished finished cancelled) a = elim a.cycle [
    | none ↦ a
    | some _ ↦ record a {
      cycle = none;
      first_cycle_complete = a.first_cycle_complete || (finished && not cancelled);
    }
  ]

  unfoldable pub run : List Event → Application → Application
  run [] a = a
  run (e ∷ es) a = run es (step e a)
