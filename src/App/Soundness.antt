-- ===== src/App/Soundness.antt =====
-- What holds in every state of the running program (cmd/directory-size-exporter/main.go), whatever the
-- goroutines do.
use directory_size_exporter.Base.{
  ℕ, ◌≡◌, refl, sym, ◌⊎◌, inl, inr, Bool, Bool-cases, Option, none, some, Option-cases, List, [],
  ◌∷◌, Str, str_eq, arith, ◌∙◌, ap,
}
use directory_size_exporter.Base.Dict.{lookup, has, keys, contains, Distinct}
use directory_size_exporter.State.{Result, Store, set_targets, targets_of, mark_scan_started, apply}
use directory_size_exporter.State.Tracking.{set_targets_lem}
use directory_size_exporter.State.Validity
use directory_size_exporter.State.Validity.{
  IsValid, Call, set_targets_to, perform, perform-IsValid, new_store-IsValid, snapshot_targets,
  snapshots_of-total,
}
use directory_size_exporter.Targets.{
  Target, Resolution, Resolver, Host, ResolveError, Warning, match_all, resolve, paths_of,
}
use directory_size_exporter.Targets.Pass.{failed_resolve_keeps_known}
use directory_size_exporter.Targets.Keyed.{IsKeyed, resolve_targets_exact}
use directory_size_exporter.Collector.Series.{series_eq}
use directory_size_exporter.Collector.Filesystem.{Answer}
use directory_size_exporter.Collector.Filesystem.Refresh.{refresh-Distinct}
use directory_size_exporter.Collector.Recorder.{Recorder, record_started, record_result}
use directory_size_exporter.App.{
  Config, Reloading, unlocked, resolving, resolved, Application, store_of, resolve_step,
  take_answer, apply_step, start_cycle, request_reload, Event, reload_requested, targets_resolved,
  targets_applied, cycle_started, scan_started, scan_finished, cycle_finished, step, run,
}

-- What the store tracks, or is about to.
abbrev pub pending : Reloading → Store → List Str
pending unlocked s = s.order
pending resolving s = s.order
pending (resolved paths) s = paths

pub record IsSound (a : Application) : Type 0 where
  pub valid : IsValid (store_of a)
  pub keyed : IsKeyed a.resolver.known
  pub tracked : (k : Str) → contains k (pending a.reload_mu (store_of a)) ≡ has k a.resolver.known
  pub cached : Distinct (keys a.fs_cache.by_target)

-- A pass that succeeds had matches.
resolve-matched :
    (host : Host) (now : ℕ) (r : Resolver) (res : Resolution)
    → (resolve host now r).0 ≡ inl res
    → (matched : List (Str × Target) × List Warning) × (match_all host r.patterns ([], [])
        ≡ inl matched)
unfolding resolve
resolve-matched host now r res h = by_match (match_all host r.patterns ([], [])) refl
  where
    by_match :
        (m : (List (Str × Target) × List Warning) ⊎ Str)
        → match_all host r.patterns ([], []) ≡ m
        → (matched : List (Str × Target) × List Warning) × (match_all host r.patterns ([], [])
            ≡ inl matched)
    by_match (inl matched) e = (matched, e)
    by_match (inr pattern) e = absurd (ground (arith, h, e))

pub resolve-tracked :
    (host : Host) (now : ℕ) (r : Resolver) (res : Resolution) (k : Str)
    → (resolve host now r).0 ≡ inl res
    → IsKeyed r.known
    → (contains k (paths_of res.targets) ≡ has k (resolve host now r).1.known)
      × IsKeyed (resolve host now r).1.known
resolve-tracked host now r res k h keyed =
    let (matched, m) = resolve-matched host now r res h in
    resolve_targets_exact host now r matched res k m h keyed

pub order-mark_scan_started :
    (now : ℕ) (t : Str) (s : Store) → (mark_scan_started now t s).order ≡ s.order
unfolding mark_scan_started
order-mark_scan_started now t s = ground (arith, Option-cases (lookup t s.targets))

pub order-apply : (now : ℕ) (r : Result) (s : Store) → (apply now r s).order ≡ s.order
unfolding apply
order-apply now r s = ground (arith, Option-cases (lookup r.target s.targets))

pub pending-same : (m : Reloading) (s s' : Store) → s'.order ≡ s.order → pending m s' ≡ pending m s
pending-same unlocked s s' h = h
pending-same resolving s s' h = h
pending-same (resolved paths) s s' h = refl

pub order_set_targets :
    (paths : List Str) (s : Store) (k : Str)
    → contains k (set_targets paths s).order ≡ contains k paths
order_set_targets paths s k = let (_, same, _) = set_targets_lem paths s k in same

-- A call about a scan keeps the order, and so what is tracked.
scan_call-IsSound :
    (a : Application) (recorder : Recorder)
    → IsSound a
    → IsValid recorder.store
    → recorder.store.order ≡ (store_of a).order
    → IsSound (record a { recorder = recorder })
scan_call-IsSound a recorder h valid same = record {
  valid = valid;
  keyed = h.keyed;
  tracked = λ k. rw (pending-same a.reload_mu (store_of a) recorder.store same) (h.tracked k);
  cached = h.cached;
}

-- What is tracked, with the phase of the reload at hand.
pub tracked_in :
    (a : Application) (m : Reloading)
    → a.reload_mu ≡ m
    → IsSound a
    → (k : Str) → contains k (pending m (store_of a)) ≡ has k a.resolver.known
tracked_in a m e h k = ap (λ n. contains k (pending n (store_of a))) (sym e) ∙ h.tracked k

-- A change of phase that keeps what is tracked.
phase-IsSound :
    (a : Application) (m next : Reloading)
    → a.reload_mu ≡ m
    → IsSound a
    → pending next (store_of a) ≡ pending m (store_of a)
    → IsSound (record a { reload_mu = next })
phase-IsSound a m next e h same = record {
  valid = h.valid;
  keyed = h.keyed;
  tracked = λ k. ap (contains k) same ∙ tracked_in a m e h k;
  cached = h.cached;
}

request-IsSound :
    (a : Application) (m : Reloading)
    → a.reload_mu ≡ m
    → IsSound a
    → IsSound (record a { reload_mu = request_reload m })
request-IsSound a unlocked e h = phase-IsSound a unlocked resolving e h refl
request-IsSound a resolving e h = phase-IsSound a resolving resolving e h refl
request-IsSound a (resolved paths) e h = phase-IsSound a (resolved paths) (resolved paths) e h refl

-- A pass of the holder of the lock, with its answer at hand.
resolving-IsSound :
    (host : Host) (now : ℕ) (a : Application) (answer : Resolution ⊎ ResolveError)
    → (resolve host now a.resolver).0 ≡ answer
    → a.reload_mu ≡ resolving
    → IsSound a
    → IsSound (take_answer answer (resolve host now a.resolver).1 a)
resolving-IsSound host now a (inr error) e m h = record {
  valid = h.valid;
  keyed = rw (failed_resolve_keeps_known host now a.resolver error e) h.keyed;
  tracked = λ k.
      rw (failed_resolve_keeps_known host now a.resolver error e) (tracked_in a resolving m h k);
  cached = h.cached;
}
resolving-IsSound host now a (inl resolution) e m h = record {
  valid = h.valid;
  keyed = (resolve-tracked host now a.resolver resolution [] e h.keyed).1;
  tracked = λ k. (resolve-tracked host now a.resolver resolution k e h.keyed).0;
  cached = h.cached;
}

resolve_step-IsSound :
    (host : Host) (now : ℕ) (a : Application) (m : Reloading)
    → a.reload_mu ≡ m
    → IsSound a
    → IsSound (resolve_step host now m a)
resolve_step-IsSound host now a unlocked e h = h
resolve_step-IsSound host now a resolving e h =
    resolving-IsSound host now a (resolve host now a.resolver).0 refl e h
resolve_step-IsSound host now a (resolved paths) e h = h

apply_step-IsSound :
    (a : Application) (m : Reloading) → a.reload_mu ≡ m → IsSound a → IsSound (apply_step m a)
unfolding perform
apply_step-IsSound a unlocked e h = h
apply_step-IsSound a resolving e h = h
apply_step-IsSound a (resolved paths) e h = record {
  valid = perform-IsValid (set_targets_to paths) (store_of a) h.valid;
  keyed = h.keyed;
  tracked = λ k. order_set_targets paths (store_of a) k ∙ tracked_in a (resolved paths) e h k;
  cached = h.cached;
}

start_cycle-IsSound :
    (cfg : Config) (late : Str → Bool) (query : Str → Answer) (paths : List Str) (a : Application)
    → IsSound a
    → IsSound (start_cycle cfg late query paths a)
start_cycle-IsSound cfg late query [] a h = h
start_cycle-IsSound cfg late query (path ∷ paths) a h = record {
  valid = h.valid;
  keyed = h.keyed;
  tracked = h.tracked;
  cached = elim (Bool-cases cfg.filesystem) [
    | inl on ↦ rw on (refresh-Distinct late query (path ∷ paths) a.fs_cache h.cached)
    | inr off ↦ rw off h.cached
  ];
}

module _ (host : Host) (cfg : Config) where
  -- A step that depends on whether a cycle runs.
  cycle-IsSound :
      (cycle : Option (List Str)) (idle busy : Application)
      → IsSound idle
      → IsSound busy
      → IsSound (elim cycle [ none ↦ idle | some _ ↦ busy ])
  cycle-IsSound none idle busy hi hb = hi
  cycle-IsSound (some _) idle busy hi hb = hb

  pub step-IsSound : (e : Event) (a : Application) → IsSound a → IsSound (step host cfg e a)
  unfolding step perform record_result
  step-IsSound reload_requested a h = request-IsSound a a.reload_mu refl h
  step-IsSound (targets_resolved now) a h = resolve_step-IsSound host now a a.reload_mu refl h
  step-IsSound targets_applied a h = apply_step-IsSound a a.reload_mu refl h
  step-IsSound (cycle_started late query) a h =
      cycle-IsSound a.cycle _ _ (start_cycle-IsSound cfg late query (targets_of (store_of a)) a h) h
  step-IsSound (scan_started now t) a h = cycle-IsSound a.cycle _ _ h (
      scan_call-IsSound a (record_started now t a.recorder) h
        (perform-IsValid (Validity.scan_started now t) (store_of a) h.valid)
        (order-mark_scan_started now t (store_of a)))
  step-IsSound (scan_finished now r) a h = cycle-IsSound a.cycle _ _ h (
      scan_call-IsSound a (record_result cfg.scan_histogram now r a.recorder) h
        (perform-IsValid (Validity.scan_finished now r) (store_of a) h.valid)
        (order-apply now r (store_of a)))
  step-IsSound (cycle_finished finished cancelled) a h =
      cycle-IsSound a.cycle _ _ h
        (record { valid = h.valid; keyed = h.keyed; tracked = h.tracked; cached = h.cached })

  pub run-IsSound : (es : List Event) (a : Application) → IsSound a → IsSound (run host cfg es a)
  unfolding run
  run-IsSound [] a h = h
  run-IsSound (e ∷ es) a h = run-IsSound es (step host cfg e a) (step-IsSound e a h)
