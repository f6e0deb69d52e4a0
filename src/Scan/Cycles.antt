-- ===== src/Scan/Cycles.antt =====
-- The state of the engine of internal/scan/engine.go over its scan cycles: `NewEngine`, the lock and
-- the gauges of `ScanAll` and `drainWorkers`, the limiter's wait, and `Stats`. The parts of a cycle are
-- the steps between which its workers, and other callers, run.
use directory_size_exporter.Base.{
  ℕ, ◌+◌, ◌-◌, ◌%◌, ◌^◌, ◌≡◌, refl, Bool, true, false, Option, none, some, List, [], ◌∷◌,
  if◌then◌else◌, add64, sub64, arith, Bool-cases, inl, inr, ap, ◌≤◌, time_sub,
}
use directory_size_exporter.Scan.Engine.{Config, with_defaults, tokens_to_take}

-- `Engine`; `burst` is that of the limiter, where there is one, and `scanning` the lock of `ScanAll`.
pub record Engine : Type 0 where
  pub cfg : Config
  pub burst : Option ℕ
  pub scanning : Bool
  pub scans_skipped : ℕ
  pub rate_wait_nanos : ℕ
  pub live_workers : ℕ
  pub abandoned_workers : ℕ

-- `NewEngine`
unfoldable pub new_engine : Config → Engine
new_engine given =
    let cfg = with_defaults given in
    record {
      cfg = cfg;
      burst = if cfg.rate_limited then some cfg.rate_limit_burst else none;
      scanning = false;
      scans_skipped = 0;
      rate_wait_nanos = 0;
      live_workers = 0;
      abandoned_workers = 0;
    }

-- `Stats`, with the wait in nanoseconds.
pub record Stats : Type 0 where
  pub scans_skipped : ℕ
  pub rate_limit_wait : ℕ
  pub abandoned_workers : ℕ

unfoldable pub stats : Engine → Stats
stats e = record {
  scans_skipped = e.scans_skipped;
  rate_limit_wait = e.rate_wait_nanos;
  abandoned_workers = e.abandoned_workers;
}

-- `waitForTokens`: the tokens asked of the limiter, and the engine with the time that the wait took.
unfoldable pub wait_for_tokens : ℕ → ℕ → ℕ → ℕ → Engine → ℕ × Engine
wait_for_tokens burst n started ended e = (
  tokens_to_take burst n,
  record e { rate_wait_nanos = add64 e.rate_wait_nanos (time_sub ended started) },
)

-- One step of `ScanAll` or of a worker: a call takes the lock or is refused, a worker of this or of
-- an earlier cycle returns, and a cycle ends with `drainWorkers`.
pub data CycleEvent : Type 0 where
  called returned drained : CycleEvent

-- The start of the workers.
unfoldable pub start_workers : Engine → Engine
start_workers e = record e { live_workers = (e.live_workers + e.cfg.concurrency) % 2 ^ 64 }

-- The end of `drainWorkers`, and so of the cycle.
unfoldable pub drain_workers : Engine → Engine
drain_workers e = record e { abandoned_workers = e.live_workers }

unfoldable pub engine_step : CycleEvent → Engine → Engine
unfolding start_workers drain_workers
engine_step called e =
    if e.scanning
    then record e { scans_skipped = add64 e.scans_skipped 1 }
    else start_workers (record e { scanning = true })
engine_step returned e = record e { live_workers = sub64 e.live_workers 1 }
engine_step drained e = record (drain_workers e) { scanning = false }

unfoldable pub run_engine : List CycleEvent → Engine → Engine
run_engine [] e = e
run_engine (v ∷ vs) e = run_engine vs (engine_step v e)

-- What a history adds up to: whether a cycle runs, the workers that its cycles started, the calls
-- that were refused, the workers that returned, and those that were out at the last drain.
pub record History : Type 0 where
  pub busy : Bool
  pub started : ℕ
  pub refused : ℕ
  pub gone : ℕ
  pub leaked : ℕ

abbrev pub nothing_yet : History
nothing_yet = record { busy = false; started = 0; refused = 0; gone = 0; leaked = 0 }

-- The history with one more event, where a cycle starts `n` workers.
unfoldable pub note_event : ℕ → CycleEvent → History → History
note_event n called y =
    if y.busy
    then record y { refused = y.refused + 1 }
    else record y { busy = true; started = y.started + n }
note_event n returned y = record y { gone = y.gone + 1 }
note_event n drained y = record y { busy = false; leaked = y.started - y.gone }

unfoldable pub history_of : ℕ → List CycleEvent → History → History
history_of n [] y = y
history_of n (v ∷ vs) y = history_of n vs (note_event n v y)

-- No more workers return than were started, at any time.
unfoldable pub IsPossible : ℕ → List CycleEvent → History → Type 0
IsPossible n [] y = y.gone ≤ y.started
IsPossible n (v ∷ vs) y = (y.gone ≤ y.started) × IsPossible n vs (note_event n v y)

-- The engine's state is that of the history, modulo 2 ^ 64.
pub record Follows (c : Config) (y : History) (e : Engine) : Type 0 where
  pub same_cfg : e.cfg ≡ c
  pub locked : e.scanning ≡ y.busy
  pub skipped : e.scans_skipped % 2 ^ 64 ≡ y.refused % 2 ^ 64
  pub live : (e.live_workers + y.gone) % 2 ^ 64 ≡ y.started % 2 ^ 64
  pub abandoned : e.abandoned_workers % 2 ^ 64 ≡ y.leaked % 2 ^ 64

called-Follows :
    (c : Config) (y : History) (e : Engine)
    → Follows c y e
    → Follows c (note_event c.concurrency called y) (engine_step called e)
unfolding engine_step start_workers note_event
called-Follows c y e f = elim (Bool-cases y.busy) [
  | inl busy ↦ ground (arith, busy, f.same_cfg, f.locked, f.skipped, f.live, f.abandoned)
  | inr idle ↦ ground (
    arith,
    idle,
    f.same_cfg,
    f.locked,
    f.skipped,
    f.live,
    f.abandoned,
    ap (λ (d : Config). d.concurrency) f.same_cfg,
  )
]

engine_step-Follows :
    (c : Config) (v : CycleEvent) (y : History) (e : Engine)
    → y.gone ≤ y.started
    → Follows c y e
    → Follows c (note_event c.concurrency v y) (engine_step v e)
unfolding engine_step drain_workers note_event
engine_step-Follows c called y e fine f = called-Follows c y e f
engine_step-Follows c returned y e fine f = record {
  same_cfg = f.same_cfg;
  locked = f.locked;
  skipped = f.skipped;
  live = omega (arith, f.live);
  abandoned = f.abandoned;
}
engine_step-Follows c drained y e fine f = record {
  same_cfg = f.same_cfg;
  locked = refl;
  skipped = f.skipped;
  live = f.live;
  abandoned = omega (arith, f.live, fine);
}

run_engine-Follows :
    (c : Config) (vs : List CycleEvent) (y : History) (e : Engine)
    → IsPossible c.concurrency vs y
    → Follows c y e
    → Follows c (history_of c.concurrency vs y) (run_engine vs e)
unfolding run_engine history_of IsPossible
run_engine-Follows c [] y e fine f = f
run_engine-Follows c (v ∷ vs) y e fine f =
    run_engine-Follows c vs _ _ fine.1 (engine_step-Follows c v y e fine.0 f)

-- Over any history of calls, returns of workers and drains, in any order, in which no more workers
-- return than were started: `ScanAll` is locked while a cycle runs; and what the engine reports is,
-- modulo 2 ^ 64, the number of calls that came while a cycle ran, and the number of workers, of all
-- cycles so far, that were out when the last cycle ended.
pub stats_exact :
    (given : Config) (vs : List CycleEvent)
    → IsPossible (with_defaults given).concurrency vs nothing_yet
    → let e = run_engine vs (new_engine given) in
      let y = history_of (with_defaults given).concurrency vs nothing_yet in
      (e.scanning ≡ y.busy)
      × ((stats e).scans_skipped % 2 ^ 64 ≡ y.refused % 2 ^ 64)
      × ((stats e).abandoned_workers % 2 ^ 64 ≡ y.leaked % 2 ^ 64)
unfolding new_engine stats
stats_exact given vs fine =
    let f =
      run_engine-Follows (with_defaults given) vs nothing_yet (new_engine given) fine (record {
        same_cfg = refl;
        locked = refl;
        skipped = refl;
        live = refl;
        abandoned = refl;
      }) in
    (f.locked, f.skipped, f.abandoned)
