-- ===== src/State/Tracking.antt =====
-- The set of tracked targets in internal/state/store.go: `SetTargets`, the isolation of targets from
-- one another, and the invariant of the store.
use mathlib.Core.Option
use directory_size_exporter.Base.{
  ℕ, ◌≡◌, refl, Bool, true, false, none, some, List, [], ◌∷◌, ◌++◌, Str, str_eq, arith,
  if◌then◌else◌, ◌==◌, str_beq_iff, Bool-cases, inl, inr,
}
use directory_size_exporter.Base.Dict.{
  lookup, insert, has, keys, contains, Distinct, is_some, contains-append, lookup-insert,
  contains-keys,
}
use directory_size_exporter.State.{
  Result, Options, TargetState, Store, new_target_state, apply_to_target, admit, admit_all,
  set_targets,
}

-- What a tracked set knows: the map has the paths of the order, in that order, and none twice.
abbrev pub IsTracked : List (Str × TargetState) × List Str → Type 0
IsTracked (next, order) = (keys next ≡ order) × Distinct order

keys-insert_new :
    (k : Str) (v : TargetState) (m : List (Str × TargetState))
    → has k m ≡ false
    → keys (insert k v m) ≡ keys m ++ k ∷ []
unfolding lookup insert
keys-insert_new k v [] h = refl
keys-insert_new k v ((j, w) ∷ m) h = ground (arith, keys-insert_new k v m)

Distinct-append_one :
    (l : List Str) (k : Str) → Distinct l → contains k l ≡ false → Distinct (l ++ k ∷ [])
unfolding contains
Distinct-append_one [] k d h = (refl, tt)
Distinct-append_one (j ∷ l) k d h = (
  ground (arith, contains-append j l (k ∷ []), str_beq_iff j k, str_beq_iff k j, d.0),
  Distinct-append_one l k d.1 (ground arith),
)

admit-IsTracked :
    (tracked : List (Str × TargetState)) (target : Str) (acc : List (Str × TargetState) × List Str)
    → IsTracked acc
    → IsTracked (admit tracked target acc)
unfolding admit
admit-IsTracked tracked target (next, order) (same, distinct) =
    elim (Bool-cases (has target next)) [
      | inl old ↦ rw old (same, distinct)
      | inr new ↦ rw new (
        rw (keys-insert_new target _ next new, same),
        Distinct-append_one order target distinct (rw (← same, contains-keys) new),
      )
    ]

admit_all-IsTracked :
    (tracked : List (Str × TargetState)) (targets : List Str)
    (acc : List (Str × TargetState) × List Str)
    → IsTracked acc
    → IsTracked (admit_all tracked targets acc)
unfolding admit_all
admit_all-IsTracked tracked [] acc h = h
admit_all-IsTracked tracked (t ∷ ts) acc h =
    admit_all-IsTracked tracked ts (admit tracked t acc) (admit-IsTracked tracked t acc h)

lookup-admit :
    (tracked : List (Str × TargetState)) (target j : Str)
    (acc : List (Str × TargetState) × List Str)
    → lookup j (admit tracked target acc).0 ≡ (
        if has j acc.0
        then lookup j acc.0
        else if target == j
        then some (Option.get_or (lookup j tracked) new_target_state)
        else none)
unfolding admit
lookup-admit tracked target j (next, order) = ground (
  arith,
  lookup-insert target j (Option.get_or (lookup target tracked) new_target_state) next,
  str_beq_iff target j,
)

lookup-admit_all :
    (tracked : List (Str × TargetState)) (targets : List Str) (j : Str)
    (acc : List (Str × TargetState) × List Str)
    → lookup j (admit_all tracked targets acc).0 ≡ (
        if has j acc.0
        then lookup j acc.0
        else if contains j targets
        then some (Option.get_or (lookup j tracked) new_target_state)
        else none)
unfolding admit_all contains
lookup-admit_all tracked [] j acc = ground arith
lookup-admit_all tracked (t ∷ ts) j acc =
    ground
      (arith, lookup-admit_all tracked ts j (admit tracked t acc), lookup-admit tracked t j acc)

pub set_targets-IsTracked :
    (targets : List Str) (s : Store)
    → IsTracked ((set_targets targets s).targets, (set_targets targets s).order)
unfolding set_targets
set_targets-IsTracked targets s = admit_all-IsTracked s.targets targets ([], []) (refl, tt)

pub lookup-set_targets :
    (targets : List Str) (s : Store) (j : Str)
    → lookup j (set_targets targets s).targets ≡ (
        if contains j targets
        then some (Option.get_or (lookup j s.targets) new_target_state)
        else none)
unfolding set_targets lookup
lookup-set_targets targets s j = lookup-admit_all s.targets targets j ([], [])

-- `SetTargets` tracks exactly the paths of the list, each once: a path that was tracked keeps its
-- state, a new one starts empty, and a path that is not in the list is dropped, from the map and
-- from the order.
pub set_targets_lem :
    (targets : List Str) (s : Store) (j : Str)
    → (lookup j (set_targets targets s).targets ≡ (
        if contains j targets
        then some (Option.get_or (lookup j s.targets) new_target_state)
        else none))
      × (contains j (set_targets targets s).order ≡ contains j targets)
      × Distinct (set_targets targets s).order
set_targets_lem targets s j =
    let found = lookup-set_targets targets s j in
    let (same, distinct) = set_targets-IsTracked targets s in
    (found, rw (← same, contains-keys, found) (is_some-if (contains j targets) _), distinct)
  where
    is_some-if : (b : Bool) (t : TargetState) → is_some (if b then some t else none) ≡ b
    is_some-if b t = ground arith

-- The flags of a retained state agree with one another.
pub record IsConsistent (opts : Options) (ts : TargetState) : Type 0 where
  pub good_published : ts.has_good ≡ true → ts.has_published ≡ true
  pub good_attempted : ts.has_good ≡ true → ts.has_attempt ≡ true
  pub published_attempted : ts.has_published ≡ true → ts.has_attempt ≡ true
  pub previous_good : ts.has_previous_good ≡ true → ts.has_good ≡ true
  pub success_present :
      ts.success ≡ true → (ts.present ≡ true) × (ts.partial ≡ false) × (ts.has_good ≡ true)
  pub partial_present : ts.partial ≡ true → ts.present ≡ true
  pub success_shows_good : ts.success ≡ true → ts.published ≡ ts.good
  pub clean_shows_good :
      opts.publish_partial ≡ false → (ts.has_published ≡ ts.has_good) × (ts.published ≡ ts.good)

pub new_target_state-IsConsistent : (opts : Options) → IsConsistent opts new_target_state
new_target_state-IsConsistent opts = ground arith

-- Every finished scan keeps the flags of the state consistent.
pub apply_to_target-IsConsistent :
    (opts : Options) (now : ℕ) (r : Result) (ts : TargetState)
    → IsConsistent opts ts
    → IsConsistent opts (apply_to_target opts now r ts)
unfolding apply_to_target
apply_to_target-IsConsistent opts now r ts h = record {
  good_published = ground arith;
  good_attempted = ground arith;
  published_attempted = ground arith;
  previous_good = ground arith;
  success_present = ground arith;
  partial_present = ground arith;
  success_shows_good = ground arith;
  clean_shows_good = ground arith;
}
