-- ===== src/State/Validity.antt =====
-- The invariant of the store of internal/state/store.go over every sequence of its operations, and
-- what a scrape gets from a valid store.
use mathlib.Core.Option
use directory_size_exporter.Base.{
  ℕ, ◌≡◌, ◌⊎◌, refl, ap₂, subst, ◌∙◌, sym, Bool, true, false, Option, none, some, List, [], ◌∷◌,
  map, Str, str_eq, arith, if◌then◌else◌, ◌==◌, eq_refl, str_beq_iff, Bool-cases, Option-cases, inl,
  inr,
}
use directory_size_exporter.Base.Dict.{
  lookup, insert, has, keys, contains, Distinct, lookup-insert, keys-insert_old,
}
use directory_size_exporter.State.{
  Result, Options, TargetState, Store, Snapshot, new_target_state, apply_to_target, set_targets,
  new_store, mark_scan_started, apply, snapshots_of, snapshot, snapshot_locked,
}
use directory_size_exporter.State.Retention.{run}
use directory_size_exporter.State.Tracking.{
  IsConsistent, set_targets-IsTracked, lookup-set_targets, apply_to_target-IsConsistent,
  new_target_state-IsConsistent,
}

pub record IsValid (s : Store) : Type 0 where
  pub tracked : keys s.targets ≡ s.order
  pub distinct : Distinct s.order
  pub consistent :
      (j : Str) (ts : TargetState) → lookup j s.targets ≡ some ts → IsConsistent s.opts ts

-- A call of a method that changes the store.
pub data Call : Type 0 where
  set_targets_to : List Str → Call
  scan_started : (now : ℕ) → Str → Call
  scan_finished : (now : ℕ) → Result → Call

unfoldable pub perform : Call → Store → Store
perform (set_targets_to targets) s = set_targets targets s
perform (scan_started now target) s = mark_scan_started now target s
perform (scan_finished now r) s = apply now r s

unfoldable pub perform_all : List Call → Store → Store
perform_all [] s = s
perform_all (c ∷ cs) s = perform_all cs (perform c s)

opts-set_targets : (targets : List Str) (s : Store) → (set_targets targets s).opts ≡ s.opts
unfolding set_targets
opts-set_targets targets s = refl

set_targets-IsValid :
    (targets : List Str) (s : Store)
    → ((j : Str) (ts : TargetState) → lookup j s.targets ≡ some ts → IsConsistent s.opts ts)
    → IsValid (set_targets targets s)
set_targets-IsValid targets s h = record {
  tracked = (set_targets-IsTracked targets s).0;
  distinct = (set_targets-IsTracked targets s).1;
  consistent = λ j ts e. rw opts-set_targets (
      survives (contains j targets) (lookup j s.targets) (h j) ts
        (sym (lookup-set_targets targets s j) ∙ e));
}
  where
    survives :
        (b : Bool) (old : Option TargetState)
        → ((ts : TargetState) → old ≡ some ts → IsConsistent s.opts ts)
        → (ts : TargetState)
        → (if b then some (Option.get_or old new_target_state) else none) ≡ some ts
        → IsConsistent s.opts ts
    survives false old keep ts e = absurd (cc)
    survives true none keep ts e =
        let e' : new_target_state ≡ ts = cc in
        subst (IsConsistent s.opts) e' (new_target_state-IsConsistent s.opts)
    survives true (some t) keep ts e = keep ts e

-- A write of a consistent state to a tracked path.
update-IsValid :
    (s : Store) (k : Str) (old ts : TargetState)
    → IsValid s
    → lookup k s.targets ≡ some old
    → IsConsistent s.opts ts
    → IsValid (record s { targets = insert k ts s.targets })
update-IsValid s k old ts h found keep = record {
  tracked = keys-insert_old k ts s.targets (ground arith) ∙ h.tracked;
  distinct = h.distinct;
  consistent =
      λ j t e. written j t (Bool-cases (k == j)) (sym (lookup-insert k j ts s.targets) ∙ e);
}
  where
    written :
        (j : Str) (t : TargetState)
        → ((k == j) ≡ true) ⊎ ((k == j) ≡ false)
        → (if k == j then some ts else lookup j s.targets) ≡ some t
        → IsConsistent s.opts t
    written j t (inl same) e = let e' : ts ≡ t = ground arith in subst (IsConsistent s.opts) e' keep
    written j t (inr other) e = h.consistent j t (rw other at e)

apply-IsValid : (now : ℕ) (r : Result) (s : Store) → IsValid s → IsValid (apply now r s)
unfolding apply
apply-IsValid now r s h = elim (Option-cases (lookup r.target s.targets)) [
  | inl gone ↦ rw (gone, apply) h
  | inr (ts, found) ↦
      rw (found, apply)
        (update-IsValid s r.target ts _ h found
          (apply_to_target-IsConsistent s.opts now r ts (h.consistent r.target ts found)))
]

mark_scan_started-IsValid :
    (now : ℕ) (t : Str) (s : Store) → IsValid s → IsValid (mark_scan_started now t s)
unfolding mark_scan_started
mark_scan_started-IsValid now t s h = elim (Option-cases (lookup t s.targets)) [
  | inl gone ↦ rw (gone, mark_scan_started) h
  | inr (ts, found) ↦
      rw (found, mark_scan_started)
        (update-IsValid s t ts _ h found (marked ts (h.consistent t ts found)))
]
  where
    marked :
        (ts : TargetState)
        → IsConsistent s.opts ts
        → IsConsistent s.opts (record ts { scanning = true; scan_started_at = now })
    marked ts c = assumption

pub perform-IsValid : (c : Call) (s : Store) → IsValid s → IsValid (perform c s)
unfolding perform
perform-IsValid (set_targets_to targets) s h = set_targets-IsValid targets s h.consistent
perform-IsValid (scan_started now target) s h = mark_scan_started-IsValid now target s h
perform-IsValid (scan_finished now r) s h = apply-IsValid now r s h

perform_all-IsValid : (cs : List Call) (s : Store) → IsValid s → IsValid (perform_all cs s)
unfolding perform_all
perform_all-IsValid [] s h = h
perform_all-IsValid (c ∷ cs) s h = perform_all-IsValid cs (perform c s) (perform-IsValid c s h)

tracks_nothing :
    (opts : Options) (j : Str) (ts : TargetState)
    → lookup {V = TargetState} j [] ≡ some ts
    → IsConsistent opts ts
unfolding lookup
tracks_nothing opts j ts e = absurd (cc)

pub new_store-IsValid : (targets : List Str) (opts : Options) → IsValid (new_store targets opts)
unfolding new_store
new_store-IsValid targets opts =
    set_targets-IsValid targets (record { opts = opts; targets = []; order = [] })
      (tracks_nothing opts)

-- Whatever calls are made of a new store, the map holds exactly the paths of the order, none twice,
-- and the flags of every state are consistent.
pub history-IsValid :
    (targets : List Str) (opts : Options) (cs : List Call)
    → IsValid (perform_all cs (new_store targets opts))
history-IsValid targets opts cs =
    perform_all-IsValid cs (new_store targets opts) (new_store-IsValid targets opts)

abbrev pub snapshot_targets : List Snapshot → List Str
snapshot_targets = map (λ (snap : Snapshot). snap.target)

target-snapshot_locked :
    (opts : Options) (target : Str) (ts : TargetState) (now : ℕ)
    → (snapshot_locked opts target ts now).target ≡ target
unfolding snapshot_locked
target-snapshot_locked opts target ts now = ground arith

-- Every path of the list has a state.
abbrev AllTracked : Store → List Str → Type 0
AllTracked s [] = Unit
AllTracked s (target ∷ order) = (has target s.targets ≡ true) × AllTracked s order

pub snapshots_of-total :
    (s : Store) (now : ℕ) (order : List Str)
    → AllTracked s order
    → (snaps : List Snapshot) × (snapshots_of s now order ≡ some snaps)
      × (snapshot_targets snaps ≡ order)
unfolding snapshots_of
snapshots_of-total s now [] h = ([], refl, refl)
snapshots_of-total s now (target ∷ order) h =
    let (snaps, taken, same) = snapshots_of-total s now order h.1 in
    elim (Option-cases (lookup target s.targets)) [
      | inl gone ↦ absurd (ground arith)
      | inr (ts, found) ↦ (
        snapshot_locked s.opts target ts now ∷ snaps,
        rw (found, snapshots_of) (rw (taken, Option.map) refl),
        ap₂ ◌∷◌ (target-snapshot_locked s.opts target ts now) same,
      )
    ]

pub AllTracked-keys :
    (s : Store) (m : List (Str × TargetState))
    → ((j : Str) → has j m ≡ true → has j s.targets ≡ true)
    → AllTracked s (keys m)
unfolding lookup
AllTracked-keys s [] h = tt
AllTracked-keys s ((k, v) ∷ m) h = (
  h k (rw eq_refl refl),
  AllTracked-keys s m (λ j found. h j (later j found (Bool-cases (k == j)))),
)
  where
    later :
        (j : Str)
        → has j m ≡ true
        → ((k == j) ≡ true) ⊎ ((k == j) ≡ false)
        → has j ((k, v) ∷ m) ≡ true
    later j found (inl same) = rw same refl
    later j found (inr other) = rw other found

-- After any calls of a new store a scrape never meets a missing state, and reports exactly the
-- tracked targets, in configuration order.
pub snapshot_total :
    (targets : List Str) (opts : Options) (cs : List Call) (now : ℕ)
    → let s = perform_all cs (new_store targets opts) in
      (snaps : List Snapshot) × (snapshot now s ≡ some snaps) × (snapshot_targets snaps ≡ s.order)
unfolding snapshot
snapshot_total targets opts cs now =
    let s = perform_all cs (new_store targets opts) in
    snapshots_of-total s now s.order
      (rw (← (history-IsValid targets opts cs).tracked) (AllTracked-keys s s.targets (λ j h. h)))

-- The finished scans among the calls that are about target `t`.
unfoldable pub scans_of : Str → List (ℕ × Result) → List (ℕ × Result)
scans_of t [] = []
scans_of t ((now, r) ∷ rs) =
    let rest = scans_of t rs in if r.target == t then (now, r) ∷ rest else rest

unfoldable pub apply_all : List (ℕ × Result) → Store → Store
apply_all [] s = s
apply_all ((now, r) ∷ rs) s = apply_all rs (apply now r s)

pub lookup-apply :
    (t : Str) (now : ℕ) (r : Result) (s : Store)
    → (lookup t (apply now r s).targets ≡ (
        if r.target == t
        then Option.map (apply_to_target s.opts now r) (lookup t s.targets)
        else lookup t s.targets))
      × ((apply now r s).opts ≡ s.opts)
unfolding apply
lookup-apply t now r s = elim (Option-cases (lookup r.target s.targets)) [
  | inl gone ↦ ground (arith, str_beq_iff r.target t)
  | inr (ts, found) ↦ ground (
    arith,
    str_beq_iff r.target t,
    lookup-insert r.target t (apply_to_target s.opts now r ts) s.targets,
  )
]

-- Targets do not influence one another: after any sequence of finished scans, of any targets and in
-- any order, the state of a target is what its own scans alone make of it, and a target that is not
-- tracked is not brought back.
pub lookup-apply_all :
    (t : Str) (rs : List (ℕ × Result)) (s : Store)
    → lookup t (apply_all rs s).targets
      ≡ Option.map (run s.opts (scans_of t rs)) (lookup t s.targets)
unfolding apply_all scans_of run
lookup-apply_all t [] s = ground arith
lookup-apply_all t ((now, r) ∷ rs) s =
    let (found, same) = lookup-apply t now r s in
    lookup-apply_all t rs (apply now r s)
    ∙ rw (same, found) (regroup (r.target == t) (lookup t s.targets))
  where
    regroup :
        (mine : Bool) (o : Option TargetState)
        → Option.map
            (run s.opts (scans_of t rs))
            (if mine then Option.map (apply_to_target s.opts now r) o else o)
          ≡ Option.map (run s.opts (if mine then (now, r) ∷ scans_of t rs else scans_of t rs)) o
    regroup true none = refl
    regroup true (some ts) = refl
    regroup false o = refl
