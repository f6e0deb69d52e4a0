-- ===== src/Targets/Pass.antt =====
-- What one pass of `Resolve` (internal/targets/resolver.go) gives.
use directory_size_exporter.Base.{
  ℕ, ◌≡◌, ◌≢◌, ◌⊎◌, inl, inr, refl, none, some, if◌then◌else◌, ap, sym, false, not, ◌&&◌, ◌||◌,
  List, [], ◌∷◌, Str, str_eq, arith, ◌==◌, str_beq_iff, length, ltb, is_pos64, Bool-cases,
}
use directory_size_exporter.Base.Dict.{
  lookup, has, keys, contains, Distinct, delete, lookup-insert, lookup-delete, contains-keys,
}
use directory_size_exporter.Targets.{
  Options, Target, Warning, Resolution, Resolver, ResolveError, no_patterns, invalid_pattern, Host,
  match_all, delete_all, Carried, vanished_since, within_grace, carry_one, carry_forward,
  absent_from, publish, resolve,
}
use directory_size_exporter.Targets.Paths.{sort_strings, contains-sort_strings}

contains-absent_from :
    (m : List (Str × Target)) (paths : List Str) (k : Str)
    → contains k (absent_from m paths) ≡ (contains k paths && not (has k m))
unfolding absent_from contains
contains-absent_from m [] k = refl
contains-absent_from m (path ∷ paths) k =
    ground (arith, contains-absent_from m paths k, str_beq_iff path k)

-- One turn of the loop over the known targets leaves the other paths alone.
carry_one-unmet :
    (opts : Options) (now : ℕ) (path : Str) (target : Target) (c : Carried) (k : Str)
    → path ≢ k
    → (has k (carry_one opts now path target c).found ≡ has k c.found)
      × (lookup k (carry_one opts now path target c).vanished_at ≡ lookup k c.vanished_at)
unfolding carry_one
carry_one-unmet opts now path target c k h =
    let since = vanished_since now (lookup path c.vanished_at) in
    (
      ground (
        arith,
        lookup-insert path k (record target { present = false }) c.found,
        str_beq_iff path k,
      ),
      ground (
        arith,
        lookup-insert path k since c.vanished_at,
        lookup-delete path k c.vanished_at,
        str_beq_iff path k,
      ),
    )

carry_one-met :
    (opts : Options) (now : ℕ) (path : Str) (target : Target) (c : Carried)
    → has path (carry_one opts now path target c).found
      ≡ (has path c.found || within_grace opts now (vanished_since now (lookup path c.vanished_at)))
unfolding carry_one
carry_one-met opts now path target c = ground (
  arith,
  lookup-insert path path (record target { present = false }) c.found,
  str_beq_iff path path,
)

has-carry_forward_unmet :
    (opts : Options) (now : ℕ) (known : List (Str × Target)) (c : Carried) (k : Str)
    → contains k (keys known) ≡ false
    → has k (carry_forward opts now known c).found ≡ has k c.found
unfolding carry_forward contains
has-carry_forward_unmet opts now [] c k h = refl
has-carry_forward_unmet opts now ((path, target) ∷ known) c k h = ground (
  arith,
  has-carry_forward_unmet opts now known (carry_one opts now path target c) k,
  carry_one-unmet opts now path target c k,
  str_beq_iff path k,
)

-- A path is found after the loop over the known targets if it was before, or if it is known and
-- within its grace period.
has-carry_forward :
    (opts : Options) (now : ℕ) (known : List (Str × Target)) (c : Carried) (k : Str)
    → Distinct (keys known)
    → has k (carry_forward opts now known c).found ≡ (
        has k c.found
        || (contains k (keys known)
            && within_grace opts now (vanished_since now (lookup k c.vanished_at))))
unfolding carry_forward contains
has-carry_forward opts now [] c k d = ground arith
has-carry_forward opts now ((path, target) ∷ known) c k d = elim (Bool-cases (path == k)) [
  | inl same ↦
      let here = (str_beq_iff path k).0 same in
      ground (
        arith,
        here,
        has-carry_forward_unmet opts now known (carry_one opts now path target c) k,
        carry_one-met opts now path target c,
        d.0,
      )
  | inr other ↦ ground (
    arith,
    has-carry_forward opts now known (carry_one opts now path target c) k d.1,
    carry_one-unmet opts now path target c k,
    str_beq_iff path k,
  )
]

lookup-carry_forward_unmet :
    (opts : Options) (now : ℕ) (known : List (Str × Target)) (c : Carried) (k : Str)
    → contains k (keys known) ≡ false
    → lookup k (carry_forward opts now known c).vanished_at ≡ lookup k c.vanished_at
unfolding carry_forward contains
lookup-carry_forward_unmet opts now [] c k h = refl
lookup-carry_forward_unmet opts now ((path, target) ∷ known) c k h = ground (
  arith,
  lookup-carry_forward_unmet opts now known (carry_one opts now path target c) k,
  carry_one-unmet opts now path target c k,
  str_beq_iff path k,
)

carry_one-noted :
    (opts : Options) (now : ℕ) (path : Str) (target : Target) (c : Carried)
    → lookup path (carry_one opts now path target c).vanished_at
      ≡ (if has path c.found then none else some (vanished_since now (lookup path c.vanished_at)))
unfolding carry_one
carry_one-noted opts now path target c =
    let since = vanished_since now (lookup path c.vanished_at) in
    ground (
      arith,
      lookup-insert path path since c.vanished_at,
      lookup-delete path path c.vanished_at,
      str_beq_iff path path,
    )

-- After the loop a known path that was not found is on record since the pass at which it was first
-- missing, and one that was found is not on record.
lookup-carry_forward :
    (opts : Options) (now : ℕ) (known : List (Str × Target)) (c : Carried) (k : Str)
    → Distinct (keys known)
    → lookup k (carry_forward opts now known c).vanished_at ≡ (
        if contains k (keys known)
        then (if has k c.found then none else some (vanished_since now (lookup k c.vanished_at)))
        else lookup k c.vanished_at)
unfolding carry_forward contains
lookup-carry_forward opts now [] c k d = refl
lookup-carry_forward opts now ((path, target) ∷ known) c k d = elim (Bool-cases (path == k)) [
  | inl same ↦
      let here = (str_beq_iff path k).0 same in
      ground (
        arith,
        here,
        lookup-carry_forward_unmet opts now known (carry_one opts now path target c) k,
        carry_one-noted opts now path target c,
        d.0,
      )
  | inr other ↦ ground (
    arith,
    lookup-carry_forward opts now known (carry_one opts now path target c) k d.1,
    carry_one-unmet opts now path target c k,
    str_beq_iff path k,
  )
]

lookup-delete_all :
    (paths : List Str) (m : List (Str × ℕ)) (k : Str)
    → lookup k (delete_all paths m) ≡ (if contains k paths then none else lookup k m)
unfolding contains
lookup-delete_all [] m k = refl
lookup-delete_all (path ∷ paths) m k =
    ground
      (arith, lookup-delete_all paths (delete path m) k, lookup-delete path k m, str_beq_iff path k)

pub publish_lem :
    (r : Resolver) (c : Carried) (res : Resolution)
    → (publish r c).0 ≡ inl res
    → ((publish r c).1.known ≡ c.found)
      × (res.added ≡ absent_from r.known (sort_strings (keys c.found)))
      × (res.removed ≡ sort_strings (absent_from c.found (keys r.known)))
      × ((is_pos64 r.opts.max && ltb r.opts.max (length c.found)) ≡ false)
unfolding publish
publish_lem r c res h = ground arith

publish_recorded :
    (r : Resolver) (c : Carried) (res : Resolution)
    → (publish r c).0 ≡ inl res
    → (publish r c).1.vanished_at ≡ delete_all (absent_from c.found (keys r.known)) c.vanished_at
unfolding publish
publish_recorded r c res h = ground (arith, h)

publish_fails :
    (r : Resolver) (c : Carried) (e : ResolveError)
    → (publish r c).0 ≡ inr e
    → (publish r c).1.known ≡ r.known
unfolding publish
publish_fails r c e h = ground arith

-- What the loop over the known targets starts from.
abbrev pub before_carry : Resolver → List (Str × Target) × List Warning → Carried
before_carry r matched = record {
  found = matched.0;
  vanished_at = r.vanished_at;
  warnings = matched.1;
}

pub resolve-publish :
    (host : Host) (now : ℕ) (r : Resolver) (matched : List (Str × Target) × List Warning)
    (res : Resolution)
    → match_all host r.patterns ([], []) ≡ inl matched
    → (resolve host now r).0 ≡ inl res
    → resolve host now r ≡ publish r (carry_forward r.opts now r.known (before_carry r matched))
unfolding resolve
resolve-publish host now r matched res m h = ground arith

-- After a pass that succeeds, and whose patterns gave the targets `matched`, a path is known exactly
-- if a pattern gave it, or if it was known before the pass and is within its grace period, counted
-- from the time on record for it, or from this pass if there is none; and of the paths that were known,
-- exactly those that no pattern gave and that stay known have that time on record after the pass, while
-- the record of a path that was not known is left as it is.
pub resolve_tracks :
    (host : Host) (now : ℕ) (r : Resolver) (matched : List (Str × Target) × List Warning)
    (res : Resolution) (k : Str)
    → match_all host r.patterns ([], []) ≡ inl matched
    → (resolve host now r).0 ≡ inl res
    → Distinct (keys r.known)
    → let after = (resolve host now r).1 in
      let since = vanished_since now (lookup k r.vanished_at) in
      let kept = has k r.known && within_grace r.opts now since in
      (has k after.known ≡ (has k matched.0 || kept))
      × (lookup k after.vanished_at ≡ (
          if has k r.known
          then (if not (has k matched.0) && kept then some since else none)
          else lookup k r.vanished_at))
resolve_tracks host now r matched res k m h d =
    let c = carry_forward r.opts now r.known (before_carry r matched) in
    let same = resolve-publish host now r matched res m h in
    let done : (publish r c).0 ≡ inl res = rw (sym same) h in
    let (known, _, _, _) = publish_lem r c res done in
    let recorded = publish_recorded r c res done in
    let found = has-carry_forward r.opts now r.known (before_carry r matched) k d in
    (
      rw (same, known) (ground (arith, found, contains-keys k r.known)),
      rw (same, recorded)
          (ground (
            arith,
            found,
            contains-keys k r.known,
            lookup-delete_all (absent_from c.found (keys r.known)) c.vanished_at k,
            contains-absent_from c.found (keys r.known) k,
            lookup-carry_forward r.opts now r.known (before_carry r matched) k d,
          )),
    )

-- A pass fails early and changes nothing, or comes to its end.
resolve-by_match :
    (host : Host) (now : ℕ) (r : Resolver) (patterns : List Str)
    (matching : (List (Str × Target) × List Warning) ⊎ Str)
    → r.patterns ≡ patterns
    → match_all host r.patterns ([], []) ≡ matching
    → ((e : ResolveError) × (resolve host now r ≡ (inr e, r)))
      ⊎ ((c : Carried) × (resolve host now r ≡ publish r c))
unfolding resolve
resolve-by_match host now r [] matching e m = inl (no_patterns, ground (arith, e, m))
resolve-by_match host now r (_ ∷ _) (inr pattern) e m =
    inl (invalid_pattern pattern, ground (arith, e, m))
resolve-by_match host now r (_ ∷ _) (inl matched) e m =
    inr (carry_forward r.opts now r.known (before_carry r matched), ground (arith, e, m))

pub resolve-cases :
    (host : Host) (now : ℕ) (r : Resolver)
    → ((e : ResolveError) × (resolve host now r ≡ (inr e, r)))
      ⊎ ((c : Carried) × (resolve host now r ≡ publish r c))
resolve-cases host now r =
    resolve-by_match host now r r.patterns (match_all host r.patterns ([], [])) refl refl

changes-publish :
    (r : Resolver) (c : Carried) (res : Resolution) (k : Str)
    → (publish r c).0 ≡ inl res
    → (contains k res.added ≡ (has k (publish r c).1.known && not (has k r.known)))
      × (contains k res.removed ≡ (has k r.known && not (has k (publish r c).1.known)))
      × ((is_pos64 r.opts.max && ltb r.opts.max (length (publish r c).1.known)) ≡ false)
changes-publish r c res k h =
    let (known, added, removed, fits) = publish_lem r c res h in
    (
      rw (known, added)
          (ground (
            arith,
            contains-absent_from r.known (sort_strings (keys c.found)) k,
            contains-sort_strings k (keys c.found),
            contains-keys k c.found,
          )),
      rw (known, removed)
          (ground (
            arith,
            contains-sort_strings k (absent_from c.found (keys r.known)),
            contains-absent_from c.found (keys r.known) k,
            contains-keys k r.known,
          )),
      rw known fits,
    )

-- A pass that succeeds reports as added exactly the paths that it knows and that were not known
-- before it, as removed exactly those that were known and that it knows no more, and, where a
-- positive limit is set, knows no more targets than the limit.
pub resolve_changes_exact :
    (host : Host) (now : ℕ) (r : Resolver) (res : Resolution) (k : Str)
    → (resolve host now r).0 ≡ inl res
    → (contains k res.added ≡ (has k (resolve host now r).1.known && not (has k r.known)))
      × (contains k res.removed ≡ (has k r.known && not (has k (resolve host now r).1.known)))
      × ((is_pos64 r.opts.max && ltb r.opts.max (length (resolve host now r).1.known)) ≡ false)
resolve_changes_exact host now r res k h = elim (resolve-cases host now r) [
  | inl (e, early) ↦ absurd (ground (arith, h, early))
  | inr (c, same) ↦ rw same (changes-publish r c res k (rw (sym same) h))
]

-- A pass that fails leaves the known targets as they were.
pub failed_resolve_keeps_known :
    (host : Host) (now : ℕ) (r : Resolver) (e : ResolveError)
    → (resolve host now r).0 ≡ inr e
    → (resolve host now r).1.known ≡ r.known
failed_resolve_keeps_known host now r e h = elim (resolve-cases host now r) [
  | inl (_, early) ↦ ap (λ q. q.1.known) early
  | inr (c, same) ↦ rw same (publish_fails r c e (rw (sym same) h))
]
