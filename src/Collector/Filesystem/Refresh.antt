-- ===== src/Collector/Filesystem/Refresh.antt =====
-- What `Refresh` (internal/collector/filesystem.go) leaves in the cache.
use directory_size_exporter.Base.{
  ℕ, ◌+◌, ◌%◌, ◌^◌, ◌≡◌, refl, Bool, true, false, ◌&&◌, none, some, List, [], ◌∷◌, All, Str, str_eq,
  str_beq_iff, arith, if◌then◌else◌, ◌==◌, Option-cases, inl, inr, add64,
}
use directory_size_exporter.Base.Dict.{
  lookup, insert, has, contains, keys, Distinct, Distinct-insert, lookup-insert,
}
use directory_size_exporter.State.{count_or_zero}
use directory_size_exporter.Collector.Filesystem.{
  FsEntry, Cache, Answer, timed_out, entry_of, count_timeout, drop_absent, refresh_each, refresh,
}

lookup-drop_absent :
    (next : List (Str × FsEntry)) (timeouts : List (Str × ℕ)) (t : Str)
    → lookup t (drop_absent next timeouts) ≡ (if has t next then lookup t timeouts else none)
unfolding drop_absent lookup
lookup-drop_absent next [] t = ground arith
lookup-drop_absent next ((target, n) ∷ timeouts) t =
    ground (arith, lookup-drop_absent next timeouts t, str_beq_iff target t)

-- Whether a query timed out.
abbrev pub is_timeout : Answer → Bool
is_timeout timed_out = true
is_timeout _ = false

-- The timeouts of `t` in one pass over the targets.
unfoldable pub timeouts_of : (Str → Answer) → Str → List Str → ℕ
timeouts_of query t [] = 0
timeouts_of query t (target ∷ targets) =
    (if (target == t) && is_timeout (query t) then 1 else 0) + timeouts_of query t targets

count_timeout_lem :
    (answer : Answer) (target t : Str) (timeouts : List (Str × ℕ))
    → count_or_zero (lookup t (count_timeout answer target timeouts)) % 2 ^ 64
      ≡ (count_or_zero (lookup t timeouts) + (if target == t && is_timeout answer then 1 else 0))
        % 2 ^ 64
count_timeout_lem timed_out target t timeouts = ground (
  arith,
  lookup-insert target t (add64 (count_or_zero (lookup target timeouts)) 1) timeouts,
  str_beq_iff target t,
)
count_timeout_lem _ target t timeouts = ground arith

module _ (late : Str → Bool) (query : Str → Answer) where
  refresh_each_lem :
      (targets : List Str) (next : List (Str × FsEntry)) (timeouts : List (Str × ℕ)) (t : Str)
      → All (λ target. late target ≡ false) targets
      → (next' : List (Str × FsEntry)) × ((refresh_each late query targets (next, timeouts)).0
          ≡ some next')
        × (lookup t next'
            ≡ (if contains t targets then some (entry_of (query t)) else lookup t next))
        × (count_or_zero (lookup t (refresh_each late query targets (next, timeouts)).1) % 2 ^ 64
            ≡ (count_or_zero (lookup t timeouts) + timeouts_of query t targets) % 2 ^ 64)
  unfolding refresh_each contains timeouts_of
  refresh_each_lem [] next timeouts t h = (next, refl, refl, omega arith)
  refresh_each_lem (target ∷ targets) next timeouts t h =
      let step = insert target (entry_of (query target)) next in
      let counted = count_timeout (query target) target timeouts in
      let (next', done, entries, total) = refresh_each_lem targets step counted t h.1 in
      (
        next',
        rw h.0 done,
        ground (
          arith,
          entries,
          lookup-insert target t (entry_of (query target)) next,
          str_beq_iff target t,
        ),
        rw h.0 (
            ground (
              arith,
              total,
              count_timeout_lem (query target) target t timeouts,
              str_beq_iff target t,
            )),
      )

  refresh-stopped :
      (targets : List Str) (c : Cache)
      → (refresh_each late query targets ([], c.timeouts)).0 ≡ none
      → (refresh late query targets c).by_target ≡ c.by_target
  unfolding refresh
  refresh-stopped targets c stop = ground (arith, stop)

  refresh_complete :
      (targets : List Str) (c : Cache) (next : List (Str × FsEntry))
      → (refresh_each late query targets ([], c.timeouts)).0 ≡ some next
      → refresh late query targets c ≡ record {
        by_target = next;
        timeouts = drop_absent next (refresh_each late query targets ([], c.timeouts)).1;
      }
  unfolding refresh
  refresh_complete targets c next done = ground (arith, done)

  -- A refresh that the context does not stop has an entry for exactly the given targets: that of the
  -- answer of the query, and one that is unavailable, with no earlier reading kept, where the query
  -- failed or timed out. A target that is given has its timeouts and those of this refresh, modulo
  -- 2 ^ 64, and one that is not given has none.
  pub refresh_exact :
      (targets : List Str) (c : Cache) (t : Str)
      → All (λ target. late target ≡ false) targets
      → (lookup t (refresh late query targets c).by_target
          ≡ (if contains t targets then some (entry_of (query t)) else none))
        × (count_or_zero (lookup t (refresh late query targets c).timeouts) % 2 ^ 64 ≡ (
            if contains t targets
            then (count_or_zero (lookup t c.timeouts) + timeouts_of query t targets) % 2 ^ 64
            else 0))
  unfolding lookup
  refresh_exact targets c t h =
      let (next, done, entries, total) = refresh_each_lem targets [] c.timeouts t h in
      rw (refresh_complete targets c next done) (
        entries,
        ground (
          arith,
          entries,
          total,
          lookup-drop_absent next (refresh_each late query targets ([], c.timeouts)).1 t,
        ),
      )

  stopped_early :
      (targets : List Str) (acc : List (Str × FsEntry) × List (Str × ℕ)) (t : Str)
      → contains t targets ≡ true
      → late t ≡ true
      → (refresh_each late query targets acc).0 ≡ none
  unfolding refresh_each contains
  stopped_early [] acc t m l = cc
  stopped_early (target ∷ targets) (next, timeouts) t m l = ground (
    arith,
    str_beq_iff target t,
    stopped_early targets
        (insert target (entry_of (query target)) next, count_timeout (query target) target timeouts)
        t,
  )

  -- A refresh that the context stops before some target keeps the whole earlier reading.
  pub stopped_refresh_keeps_reading :
      (targets : List Str) (c : Cache) (t : Str)
      → contains t targets ≡ true
      → late t ≡ true
      → (refresh late query targets c).by_target ≡ c.by_target
  unfolding refresh
  stopped_refresh_keeps_reading targets c t m l =
      ground (arith, stopped_early targets ([], c.timeouts) t m l)

  refresh_each-Distinct :
      (targets : List Str) (next : List (Str × FsEntry)) (timeouts : List (Str × ℕ))
      (next' : List (Str × FsEntry))
      → (refresh_each late query targets (next, timeouts)).0 ≡ some next'
      → Distinct (keys next)
      → Distinct (keys next')
  unfolding refresh_each
  refresh_each-Distinct [] next timeouts next' h d =
      let same : next ≡ next' = ground (arith, h) in rw (← same) d
  refresh_each-Distinct (target ∷ targets) next timeouts next' h d =
      refresh_each-Distinct targets (insert target (entry_of (query target)) next)
        (count_timeout (query target) target timeouts) next' (ground (arith, h))
        (Distinct-insert target (entry_of (query target)) next d)

  -- No target has two entries.
  pub refresh-Distinct :
      (targets : List Str) (c : Cache)
      → Distinct (keys c.by_target)
      → Distinct (keys (refresh late query targets c).by_target)
  refresh-Distinct targets c d =
      elim (Option-cases (refresh_each late query targets ([], c.timeouts)).0) [
        | inl stop ↦ rw (refresh-stopped targets c stop) d
        | inr (next, done) ↦
            rw (refresh_complete targets c next done)
              (refresh_each-Distinct targets [] c.timeouts next done tt)
      ]
