-- ===== src/Targets/Limit.antt =====
-- A pass of the resolver keeps to `--targets.max` (internal/targets/resolver.go).
use directory_size_exporter.Base.{
  ℕ, suc, ◌≤◌, ◌≡◌, refl, sym, ◌∙◌, ap, inl, inr, false, ◌&&◌, Option-cases, List, [], ◌∷◌, Str,
  str_eq, arith, ltb, length, is_pos64,
}
use directory_size_exporter.Base.Dict.{lookup, keys}
use directory_size_exporter.Targets.{
  Target, Resolution, Resolver, Host, Carried, targets_at, paths_of, mark_overlaps, mark_each,
  resolve, publish,
}
use directory_size_exporter.Targets.Paths.{sort_strings, insert_sorted}
use directory_size_exporter.Targets.Pass.{resolve-cases, publish_lem}
use directory_size_exporter.Targets.Keyed.{paths-mark_each}

-- A positive limit is not exceeded.
abbrev pub Within : ℕ → List Str → Type 0
Within max paths = (is_pos64 max && ltb max (length paths)) ≡ false

length-insert_sorted : (s : Str) (l : List Str) → length (insert_sorted s l) ≡ suc (length l)
unfolding insert_sorted
length-insert_sorted s [] = refl
length-insert_sorted s (k ∷ l) = ground (arith, length-insert_sorted s l)

length-sort_strings : (l : List Str) → length (sort_strings l) ≡ length l
unfolding sort_strings
length-sort_strings [] = refl
length-sort_strings (s ∷ l) =
    length-insert_sorted s (sort_strings l) ∙ ap suc (length-sort_strings l)

length-keys : (m : List (Str × Target)) → length (keys m) ≡ length m
length-keys [] = refl
length-keys (_ ∷ m) = ap suc (length-keys m)

length-targets_at :
    (found : List (Str × Target)) (paths : List Str)
    → length (paths_of (targets_at found paths)) ≤ length paths
length-targets_at found [] = omega arith
length-targets_at found (path ∷ paths) =
    ground (arith, Option-cases (lookup path found), length-targets_at found paths)

publish-Within :
    (r : Resolver) (c : Carried) (res : Resolution)
    → (publish r c).0 ≡ inl res
    → Within r.opts.max (paths_of res.targets)
unfolding publish mark_overlaps
publish-Within r c res h =
    let paths = sort_strings (keys c.found) in
    let targets = targets_at c.found paths in
    let same : res.targets ≡ mark_each targets targets = ground (arith, h) in
    let counted : length (paths_of res.targets) ≡ length (paths_of targets) =
      ap (λ l. length (paths_of l)) same ∙ ap length (paths-mark_each targets targets) in
    let listed : length paths ≡ length c.found =
      length-sort_strings (keys c.found) ∙ length-keys c.found in
    let (_, _, _, fits) = publish_lem r c res h in
    ground (arith, counted, listed, fits, length-targets_at c.found paths)

opts-publish : (r : Resolver) (c : Carried) → (publish r c).1.opts ≡ r.opts
unfolding publish
opts-publish r c = ground arith

pub opts-resolve : (host : Host) (now : ℕ) (r : Resolver) → (resolve host now r).1.opts ≡ r.opts
opts-resolve host now r = elim (resolve-cases host now r) [
  | inl (e, early) ↦ ap (λ q. q.1.opts) early
  | inr (c, same) ↦ ap (λ q. q.1.opts) same ∙ opts-publish r c
]

pub resolve-Within :
    (host : Host) (now : ℕ) (r : Resolver) (res : Resolution)
    → (resolve host now r).0 ≡ inl res
    → Within r.opts.max (paths_of res.targets)
resolve-Within host now r res h = elim (resolve-cases host now r) [
  | inl (e, early) ↦ absurd (ground (arith, h, early))
  | inr (c, same) ↦ publish-Within r c res (ap (λ q. q.0) (sym same) ∙ h)
]
