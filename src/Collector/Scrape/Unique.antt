-- ===== src/Collector/Scrape/Unique.antt =====
-- No series is sent twice in a scrape (internal/collector/collector.go).
use mathlib.Core.List.{map-append}
use directory_size_exporter.Base.{
  every_sound, ℕ, ◌≡◌, refl, Bool, true, false, ◌||◌, some, List, [], ◌∷◌, ◌++◌, map, All, Str,
  str_eq, str_beq, str_beq_iff, arith, ◌==◌, length, subst, sym, Bool-cases, ◌∙◌, inl, inr,
}
use directory_size_exporter.Base.Dict.{
  contains, keys, Distinct, Distinct-append, contains-append, All-contains, is_distinct,
  is_distinct_sound,
}
use directory_size_exporter.State.{Snapshot}
use directory_size_exporter.State.Validity.{snapshot_targets}
use directory_size_exporter.Fsstat.{Capabilities}
use directory_size_exporter.Collector.Descs.{engine_names, fs_names, entry_names}
use directory_size_exporter.Collector.Series.{
  Series, series_eq, series_of, strs_beq, is_for, starts_with, All-map-append, All-weaken, All-Sub,
  Distinct-Sub, Sub-map, Sub-when, Sub-self,
}
use directory_size_exporter.Collector.Targets.{
  Options, collect_target, is_own_name, collect_target-Distinct, collect_target-is_for,
  collect_target-named,
}
use directory_size_exporter.Collector.Filesystem.{Cache, collect_filesystems}
use directory_size_exporter.Collector.Filesystem.Once.{
  starts_in, collect_entries-Distinct, collect_entries-named,
}
use directory_size_exporter.Collector.Scrape.{
  collect_targets, collect_engine, filesystem_samples, collect,
}
use directory_size_exporter.Scan.Cycles.{Stats}

abbrev is_of_cache : Str → Bool
is_of_cache name = contains name fs_names || contains name entry_names

starts_here :
    (target : Str) (targets labels : List Str)
    → starts_with target labels ≡ true
    → starts_in (target ∷ targets) labels ≡ true
unfolding contains
starts_here target targets [] h = h
starts_here target targets (l ∷ _) h =
    let test : (target == l) ≡ true = (str_beq_iff target l).1 (sym ((str_beq_iff l target).0 h)) in
    ground (arith, test)

starts_later :
    (target : Str) (targets labels : List Str)
    → starts_in targets labels ≡ true
    → starts_in (target ∷ targets) labels ≡ true
unfolding contains
starts_later target targets [] h = h
starts_later target targets (l ∷ _) h = ground (arith, h)

-- A series of a later target is not of this one.
of_another :
    (target : Str) (targets : List Str)
    → contains target targets ≡ false
    → (labels : List Str) → starts_in targets labels ≡ true
    → starts_with target labels ≡ false
of_another target targets fresh [] h = refl
of_another target targets fresh (l ∷ _) h = elim (Bool-cases (l == target)) [
  | inl same ↦
      let equal : l ≡ target = (str_beq_iff l target).0 same in
      let clash : contains target targets ≡ true = rw (← equal) h in
      absurd (ground (arith, fresh, clash))
  | inr other ↦ other
]

module _ (opts : Options) (caps : Capabilities) where
  own_targets :
      (snaps : List Snapshot)
      → All
          (λ k. starts_in (snapshot_targets snaps) k.labels ≡ true)
          (map series_of (collect_targets opts caps snaps))
  unfolding collect_targets
  own_targets [] = tt
  own_targets (snap ∷ snaps) =
      All-map-append (λ k. starts_in (snap.target ∷ snapshot_targets snaps) k.labels ≡ true)
        series_of (collect_target opts caps snap) (collect_targets opts caps snaps)
        (All-weaken (λ k. is_for snap.target k ≡ true)
          (λ k. starts_in (snap.target ∷ snapshot_targets snaps) k.labels ≡ true)
          (map series_of (collect_target opts caps snap))
          (λ k. starts_here snap.target (snapshot_targets snaps) k.labels)
          (collect_target-is_for opts caps snap))
        (All-weaken (λ k. starts_in (snapshot_targets snaps) k.labels ≡ true)
          (λ k. starts_in (snap.target ∷ snapshot_targets snaps) k.labels ≡ true)
          (map series_of (collect_targets opts caps snaps))
          (λ k. starts_later snap.target (snapshot_targets snaps) k.labels) (own_targets snaps))

  collect_targets-Distinct :
      (snaps : List Snapshot)
      → Distinct (snapshot_targets snaps)
      → Distinct (map series_of (collect_targets opts caps snaps))
  unfolding collect_targets
  collect_targets-Distinct [] d = tt
  collect_targets-Distinct (snap ∷ snaps) d =
      subst (λ (l : List Series). Distinct l)
        (sym
          (map-append series_of (collect_target opts caps snap) (collect_targets opts caps snaps)))
        (Distinct-append (is_for snap.target) (map series_of (collect_target opts caps snap))
          (map series_of (collect_targets opts caps snaps)) (collect_target-Distinct opts caps snap)
          (collect_targets-Distinct snaps d.1) (collect_target-is_for opts caps snap)
          (All-weaken (λ k. starts_in (snapshot_targets snaps) k.labels ≡ true)
            (λ k. is_for snap.target k ≡ false) (map series_of (collect_targets opts caps snaps))
            (λ k. of_another snap.target (snapshot_targets snaps) d.0 k.labels)
            (own_targets snaps)))

  collect_targets-named :
      (snaps : List Snapshot)
      → All (λ k. is_own_name k.name ≡ true) (map series_of (collect_targets opts caps snaps))
  unfolding collect_targets
  collect_targets-named [] = tt
  collect_targets-named (snap ∷ snaps) =
      All-map-append (λ k. is_own_name k.name ≡ true) series_of (collect_target opts caps snap)
        (collect_targets opts caps snaps) (collect_target-named opts caps snap)
        (collect_targets-named snaps)

  -- The engine and the cache share no metric.
  engine_Distinct :
      (stats : Stats) (n : ℕ) → Distinct (map series_of (collect_engine opts caps stats n))
  unfolding collect_engine contains str_beq strs_beq is_distinct
  engine_Distinct stats n =
      is_distinct_sound (map series_of (collect_engine opts caps stats n)) refl

  engine_named :
      (stats : Stats) (n : ℕ)
      → All
          (λ k. contains k.name engine_names ≡ true)
          (map series_of (collect_engine opts caps stats n))
  unfolding collect_engine contains str_beq
  engine_named stats n =
      every_sound (λ k. contains k.name engine_names)
        (map series_of (collect_engine opts caps stats n)) refl

  filesystem_Distinct :
      (cache : Cache)
      → Distinct (keys cache.by_target)
      → Distinct (map series_of (filesystem_samples opts caps (some cache)))
  filesystem_Distinct cache d =
      Distinct-Sub
        (Sub-map series_of (Sub-when opts.filesystem (Sub-self (collect_filesystems caps cache))))
        (collect_entries-Distinct caps cache.timeouts [] cache.by_target d)

  filesystem_named :
      (cache : Cache)
      → All
          (λ k. is_of_cache k.name ≡ true)
          (map series_of (filesystem_samples opts caps (some cache)))
  filesystem_named cache =
      All-Sub (λ k. is_of_cache k.name ≡ true)
        (Sub-map series_of (Sub-when opts.filesystem (Sub-self (collect_filesystems caps cache))))
        (collect_entries-named caps cache.timeouts [] cache.by_target)

  cache_is_not_engine : (name : Str) → is_of_cache name ≡ true → contains name engine_names ≡ false
  unfolding contains str_beq
  cache_is_not_engine name h =
      All-contains (λ other. contains other engine_names ≡ false) (fs_names ++ entry_names)
        (refl, (refl, (refl, (refl, (refl, (refl, (refl, (refl, tt)))))))) name
        (contains-append name fs_names entry_names ∙ h)

  rest_Distinct :
      (stats : Stats) (cache : Cache) (n : ℕ)
      → Distinct (keys cache.by_target)
      → Distinct (
          map series_of
            (collect_engine opts caps stats n ++ filesystem_samples opts caps (some cache)))
  rest_Distinct stats cache n d =
      subst (λ (l : List Series). Distinct l)
        (sym (
          map-append series_of (collect_engine opts caps stats n)
            (filesystem_samples opts caps (some cache))))
        (Distinct-append (λ k. contains k.name engine_names)
          (map series_of (collect_engine opts caps stats n))
          (map series_of (filesystem_samples opts caps (some cache))) (engine_Distinct stats n)
          (filesystem_Distinct cache d) (engine_named stats n)
          (All-weaken (λ k. is_of_cache k.name ≡ true) (λ k. contains k.name engine_names ≡ false)
            (map series_of (filesystem_samples opts caps (some cache)))
            (λ k. cache_is_not_engine k.name) (filesystem_named cache)))

  rest_named :
      (stats : Stats) (cache : Cache) (n : ℕ)
      → All
          (λ k. is_own_name k.name ≡ false)
          (map series_of
            (collect_engine opts caps stats n ++ filesystem_samples opts caps (some cache)))
  rest_named stats cache n =
      All-map-append (λ k. is_own_name k.name ≡ false) series_of (collect_engine opts caps stats n)
        (filesystem_samples opts caps (some cache))
        (All-weaken (λ k. contains k.name engine_names ≡ true) (λ k. is_own_name k.name ≡ false)
          (map series_of (collect_engine opts caps stats n)) (λ k h. ground (arith, h))
          (engine_named stats n))
        (All-weaken (λ k. is_of_cache k.name ≡ true) (λ k. is_own_name k.name ≡ false)
          (map series_of (filesystem_samples opts caps (some cache))) (λ k h. ground (arith, h))
          (filesystem_named cache))

  -- The histogram of durations aside, no series is sent twice in one scrape, when no target is listed
  -- twice in the store or in the cache of filesystems: no two samples have the same metric and the
  -- same label values.
  pub collect_no_duplicates :
      (stats : Stats) (cache : Cache) (snaps : List Snapshot)
      → Distinct (snapshot_targets snaps)
      → Distinct (keys cache.by_target)
      → Distinct (map series_of (collect opts caps stats (some cache) snaps))
  unfolding collect
  collect_no_duplicates stats cache snaps ds dc =
      subst (λ (l : List Series). Distinct l)
        (sym (
          map-append series_of (collect_targets opts caps snaps) (
            collect_engine opts caps stats (length snaps)
            ++ filesystem_samples opts caps (some cache))))
        (Distinct-append (λ k. is_own_name k.name) (map series_of (collect_targets opts caps snaps))
          (map series_of (
            collect_engine opts caps stats (length snaps)
            ++ filesystem_samples opts caps (some cache)))
          (collect_targets-Distinct snaps ds) (rest_Distinct stats cache (length snaps) dc)
          (collect_targets-named snaps) (rest_named stats cache (length snaps)))
