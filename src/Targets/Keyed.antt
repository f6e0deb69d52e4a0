-- ===== src/Targets/Keyed.antt =====
-- The targets that a pass of `Resolve` (internal/targets/resolver.go) returns, against the map that
-- it keeps.
use directory_size_exporter.Base.{
  ℕ, ◌≡◌, ◌⊎◌, inl, inr, refl, ap, ◌∙◌, sym, false, ◌&&◌, some, List, [], ◌∷◌, ◌++◌, Str, str_eq,
  arith, ◌==◌, str_beq_iff, Bool-cases, Option-cases, subst,
}
use directory_size_exporter.Base.Dict.{lookup, insert, has, keys, contains, contains-keys}
use directory_size_exporter.Targets.{
  Options, Target, Warning, Resolution, Resolver, Host, paths_of, match_all, add_matches, add_match,
  expand, resolve_one, Carried, carry_one, carry_forward, targets_at, mark_overlaps, mark_each,
  publish, resolve, within_grace, vanished_since,
}
use directory_size_exporter.Targets.Paths.{sort_strings, contains-sort_strings}
use directory_size_exporter.Targets.Pass.{resolve-publish, before_carry}

-- Every target is filed under its own path.
abbrev pub IsKeyed : List (Str × Target) → Type 0
IsKeyed [] = Unit
IsKeyed ((path, target) ∷ m) = (target.path ≡ path) × IsKeyed m

insert-IsKeyed :
    (path : Str) (target : Target) (m : List (Str × Target))
    → target.path ≡ path
    → IsKeyed m
    → IsKeyed (insert path target m)
unfolding insert
insert-IsKeyed path target [] e h = (e, tt)
insert-IsKeyed path target ((p, t) ∷ m) e h = elim (Bool-cases (p == path)) [
  | inl same ↦ rw same (e ∙ sym ((str_beq_iff p path).0 same), h.1)
  | inr other ↦ rw other (h.0, insert-IsKeyed path target m e h.1)
]

add_match-IsKeyed :
    (found_or : Target ⊎ Warning) (acc : List (Str × Target) × List Warning)
    → IsKeyed acc.0
    → IsKeyed (add_match found_or acc).0
add_match-IsKeyed (inr warning) (found, warnings) h = h
add_match-IsKeyed (inl target) (found, warnings) h = elim (Bool-cases (has target.path found)) [
  | inl old ↦ rw old h
  | inr new ↦ rw new (insert-IsKeyed target.path target found refl h)
]

add_matches-IsKeyed :
    (host : Host) (pattern : Str) (paths : List Str) (acc : List (Str × Target) × List Warning)
    → IsKeyed acc.0
    → IsKeyed (add_matches host pattern paths acc).0
unfolding add_matches
add_matches-IsKeyed host pattern [] acc h = h
add_matches-IsKeyed host pattern (path ∷ paths) acc h =
    add_matches-IsKeyed host pattern paths (add_match (resolve_one host path pattern) acc)
      (add_match-IsKeyed (resolve_one host path pattern) acc h)

match_all-IsKeyed :
    (host : Host) (patterns : List Str) (acc matched : List (Str × Target) × List Warning)
    → match_all host patterns acc ≡ inl matched
    → IsKeyed acc.0
    → IsKeyed matched.0
unfolding match_all
match_all-IsKeyed host [] acc matched m h =
    let same : acc.0 ≡ matched.0 = ground (arith, m) in subst IsKeyed same h
match_all-IsKeyed host (pattern ∷ patterns) (found, warnings) matched m h =
    elim (Option-cases (expand host pattern)) [
      | inl bad ↦ absurd (ground (arith, bad, m))
      | inr ((paths, warned), good) ↦
          match_all-IsKeyed host patterns
            (add_matches host pattern paths (found, warnings ++ warned)) matched
            (ground (arith, good, m))
            (add_matches-IsKeyed host pattern paths (found, warnings ++ warned) h)
    ]

carry_one-IsKeyed :
    (opts : Options) (now : ℕ) (path : Str) (target : Target) (c : Carried)
    → target.path ≡ path
    → IsKeyed c.found
    → IsKeyed (carry_one opts now path target c).found
unfolding carry_one
carry_one-IsKeyed opts now path target c e h = elim (Bool-cases (has path c.found)) [
  | inl old ↦ rw old h
  | inr new ↦
      elim (Bool-cases (within_grace opts now (vanished_since now (lookup path c.vanished_at)))) [
        | inl kept ↦
            rw (new, kept) (insert-IsKeyed path (record target { present = false }) c.found e h)
        | inr dropped ↦ rw (new, dropped) h
      ]
]

carry_forward-IsKeyed :
    (opts : Options) (now : ℕ) (known : List (Str × Target)) (c : Carried)
    → IsKeyed known
    → IsKeyed c.found
    → IsKeyed (carry_forward opts now known c).found
unfolding carry_forward
carry_forward-IsKeyed opts now [] c k h = h
carry_forward-IsKeyed opts now ((path, target) ∷ known) c k h =
    carry_forward-IsKeyed opts now known (carry_one opts now path target c) k.1
      (carry_one-IsKeyed opts now path target c k.0 h)

path-lookup :
    (m : List (Str × Target)) (path : Str) (target : Target)
    → IsKeyed m
    → lookup path m ≡ some target
    → target.path ≡ path
unfolding lookup
path-lookup [] path target h e = ground arith
path-lookup ((p, t) ∷ m) path target h e =
    ground (arith, str_beq_iff p path, h, e, path-lookup m path target h.1)

contains-targets_at :
    (found : List (Str × Target)) (paths : List Str) (k : Str)
    → IsKeyed found
    → contains k (paths_of (targets_at found paths)) ≡ (contains k paths && has k found)
unfolding contains
contains-targets_at found [] k h = refl
contains-targets_at found (path ∷ paths) k h = elim (Option-cases (lookup path found)) [
  | inl gone ↦ ground (arith, gone, str_beq_iff path k, contains-targets_at found paths k h)
  | inr (target, there) ↦ ground (
    arith,
    there,
    path-lookup found path target h there,
    str_beq_iff path k,
    contains-targets_at found paths k h,
  )
]

pub paths-mark_each :
    (everything targets : List Target) → paths_of (mark_each everything targets) ≡ paths_of targets
paths-mark_each everything [] = refl
paths-mark_each everything (target ∷ targets) =
    ap (◌∷◌ target.path) (paths-mark_each everything targets)

pub publish-targets :
    (r : Resolver) (c : Carried) (res : Resolution) (k : Str)
    → IsKeyed c.found
    → (publish r c).0 ≡ inl res
    → ((publish r c).1.known ≡ c.found)
      × (res.targets ≡ mark_overlaps (targets_at c.found (sort_strings (keys c.found))))
unfolding publish
publish-targets r c res k keyed h = ground (arith, h)

-- A pass that succeeds, from known targets that are filed under their own paths, returns exactly the
-- targets that it knows afterwards, and these are filed under their own paths.
pub resolve_targets_exact :
    (host : Host) (now : ℕ) (r : Resolver) (matched : List (Str × Target) × List Warning)
    (res : Resolution) (k : Str)
    → match_all host r.patterns ([], []) ≡ inl matched
    → (resolve host now r).0 ≡ inl res
    → IsKeyed r.known
    → (contains k (paths_of res.targets) ≡ has k (resolve host now r).1.known)
      × IsKeyed (resolve host now r).1.known
unfolding mark_overlaps
resolve_targets_exact host now r matched res k m h keyed =
    let start = before_carry r matched in
    let c = carry_forward r.opts now r.known start in
    let same = resolve-publish host now r matched res m h in
    let filed =
      carry_forward-IsKeyed r.opts now r.known start keyed
        (match_all-IsKeyed host r.patterns ([], []) matched m tt) in
    let (known, targets) = publish-targets r c res k filed (rw (sym same) h) in
    (
      rw (same, known, targets)
          (ground (
            arith,
            paths-mark_each (targets_at c.found (sort_strings (keys c.found)))
                (targets_at c.found (sort_strings (keys c.found))),
            contains-targets_at c.found (sort_strings (keys c.found)) k filed,
            contains-sort_strings k (keys c.found),
            contains-keys k c.found,
          )),
      rw (same, known) filed,
    )
