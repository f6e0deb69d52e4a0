-- ===== src/Targets.antt =====
-- internal/targets/resolver.go: from path patterns to the directories to scan. The answers of the
-- host (filepath.Glob, Abs, EvalSymlinks, Clean, os.Stat) are parameters; the text of a warning is
-- left out, its cause and its path are kept. A range over a map visits its entries in list order.
pub mod Paths
pub mod Pass
pub mod Keyed
pub mod Overlap
pub mod Limit
use directory_size_exporter.Base.{
  ◌⊎◌, inl, inr, ℕ, Bool, true, false, not, ◌&&◌, ◌||◌, Option, none, some, List, [], ◌∷◌, ◌++◌,
  Str, str_eq, if◌then◌else◌, length, ltb, is_pos64, lt64, time_sub, sub64,
}
use directory_size_exporter.Base.Dict.{lookup, insert, delete, has, keys}
use Paths.{has_meta, trim_space, is_under, is_empty, sort_strings}

pub record Options : Type 0 where
  pub max : ℕ
  pub retain_vanished : ℕ

pub record Target : Type 0 where
  pub path : Str
  pub pattern : Str
  pub overlaps : List Str
  pub present : Bool

-- The causes of a warning.
pub data Warning : Type 0 where
  no_match : Str → Warning
  empty_path : Warning
  cannot_resolve : Str → Warning
  cannot_stat : Str → Warning
  not_directory : Str → Warning
  retaining : Str → ℕ → Warning

pub record Resolution : Type 0 where
  pub targets : List Target
  pub added : List Str
  pub removed : List Str
  pub warnings : List Warning

pub record Resolver : Type 0 where
  pub patterns : List Str
  pub opts : Options
  pub vanished_at : List (Str × ℕ)
  pub known : List (Str × Target)

pub data ResolveError : Type 0 where
  no_patterns : ResolveError
  invalid_pattern : Str → ResolveError
  too_many : ℕ → ℕ → ResolveError

-- The host: `none` is an error; `stat` tells whether the path is a directory.
pub record Host : Type 0 where
  pub glob : Str → Option (List Str)
  pub abs : Str → Option Str
  pub eval_symlinks : Str → Option Str
  pub clean : Str → Str
  pub stat : Str → Option Bool

abbrev pub new_resolver : List Str → Options → Resolver
new_resolver patterns opts = record {
  patterns = patterns;
  opts = opts;
  vanished_at = [];
  known = [];
}

abbrev pub set_patterns : List Str → Resolver → Resolver
set_patterns patterns r = record r { patterns = patterns }

-- `Paths`
abbrev pub paths_of : List Target → List Str
paths_of [] = []
paths_of (target ∷ targets) = target.path ∷ paths_of targets

-- `expand`: the matches, the warnings (one at most), or `none` for an invalid pattern.
unfoldable pub expand : Host → Str → Option (List Str × List Warning)
expand host pattern =
    if not (has_meta pattern) then some (pattern ∷ [], []) else elim (host.glob pattern) [
      | none ↦ none
      | some [] ↦ some ([], no_match pattern ∷ [])
      | some (path ∷ paths) ↦ some (path ∷ paths, [])
    ]

-- The checks of `resolveOne` on a path without its links.
abbrev pub check_dir : Host → Str → Str → Target ⊎ Warning
check_dir host resolved pattern = elim (host.stat resolved) [
  | none ↦ inr (cannot_stat resolved)
  | some is_dir ↦
      if not is_dir
      then inr (not_directory resolved)
      else inl (record { path = resolved; pattern = pattern; overlaps = []; present = true })
]

unfoldable pub resolve_one : Host → Str → Str → Target ⊎ Warning
resolve_one host path pattern =
    let trimmed = trim_space path in
    if is_empty trimmed then inr empty_path else elim (host.abs trimmed) [
      | none ↦ inr (cannot_resolve trimmed)
      | some absolute ↦ elim (host.eval_symlinks absolute) [
        | none ↦ inr (cannot_resolve absolute)
        | some resolved ↦ check_dir host (host.clean resolved) pattern
      ]
    ]

-- The first pattern to produce a path owns it.
abbrev pub add_found : Target → List (Str × Target) → List (Str × Target)
add_found target found = if has target.path found then found else insert target.path target found

abbrev pub add_match :
    Target ⊎ Warning → List (Str × Target) × List Warning → List (Str × Target) × List Warning
add_match (inl target) (found, warnings) = (add_found target found, warnings)
add_match (inr warning) (found, warnings) = (found, warnings ++ warning ∷ [])

unfoldable pub add_matches :
    Host → Str → List Str → List (Str × Target) × List Warning → List (Str × Target) × List Warning
add_matches host pattern [] acc = acc
add_matches host pattern (path ∷ paths) acc =
    add_matches host pattern paths (add_match (resolve_one host path pattern) acc)

-- The loop over the patterns; `inr` is the pattern that is invalid.
unfoldable pub match_all :
    Host
    → List Str
    → List (Str × Target) × List Warning
    → (List (Str × Target) × List Warning) ⊎ Str
match_all host [] acc = inl acc
match_all host (pattern ∷ patterns) (found, warnings) = elim (expand host pattern) [
  | none ↦ inr pattern
  | some (paths, warned) ↦
      match_all host patterns (add_matches host pattern paths (found, warnings ++ warned))
]

-- What the loop over `r.known` writes.
pub record Carried : Type 0 where
  pub found : List (Str × Target)
  pub vanished_at : List (Str × ℕ)
  pub warnings : List Warning

-- The time at which a path stopped matching: that on record, or `now`.
abbrev pub vanished_since : ℕ → Option ℕ → ℕ
vanished_since now none = now
vanished_since now (some since) = since

-- `r.opts.RetainVanished > 0 && now.Sub(since) < r.opts.RetainVanished`
abbrev pub within_grace : Options → ℕ → ℕ → Bool
within_grace opts now since =
    is_pos64 opts.retain_vanished && lt64 (time_sub now since) opts.retain_vanished

unfoldable pub carry_one : Options → ℕ → Str → Target → Carried → Carried
carry_one opts now path target c =
    if has path c.found
    then record c { vanished_at = delete path c.vanished_at }
    else let since = vanished_since now (lookup path c.vanished_at) in
      let noted = record c { vanished_at = insert path since c.vanished_at } in
      if within_grace opts now since
      then record noted {
        found = insert path (record target { present = false }) c.found;
        warnings =
            c.warnings ++ retaining path (sub64 opts.retain_vanished (time_sub now since)) ∷ [];
      }
      else noted

unfoldable pub carry_forward : Options → ℕ → List (Str × Target) → Carried → Carried
carry_forward opts now [] c = c
carry_forward opts now ((path, target) ∷ known) c =
    carry_forward opts now known (carry_one opts now path target c)

-- `found[path]` for each path.
abbrev pub targets_at : List (Str × Target) → List Str → List Target
targets_at found [] = []
targets_at found (path ∷ paths) = elim (lookup path found) [
  | none ↦ targets_at found paths
  | some target ↦ target ∷ targets_at found paths
]

-- The inner loop of `markOverlaps`. That of the source skips the target itself by its index; here
-- `isUnder` does, as no path is under itself.
abbrev pub overlaps_of : Str → List Target → List Str
overlaps_of path [] = []
overlaps_of path (other ∷ others) =
    let rest = overlaps_of path others in
    if is_under path other.path then other.path ∷ rest else rest

abbrev pub mark_each : List Target → List Target → List Target
mark_each everything [] = []
mark_each everything (target ∷ targets) =
    record target { overlaps = target.overlaps ++ overlaps_of target.path everything }
    ∷ mark_each everything targets

unfoldable pub mark_overlaps : List Target → List Target
mark_overlaps targets = mark_each targets targets

-- The keys of the second argument that the first has not.
unfoldable pub absent_from : List (Str × Target) → List Str → List Str
absent_from m [] = []
absent_from m (path ∷ paths) =
    let rest = absent_from m paths in if has path m then rest else path ∷ rest

abbrev pub delete_all : List Str → List (Str × ℕ) → List (Str × ℕ)
delete_all [] m = m
delete_all (path ∷ paths) m = delete_all paths (delete path m)

-- The end of `Resolve`, once the targets are found.
unfoldable pub publish : Resolver → Carried → (Resolution ⊎ ResolveError) × Resolver
publish r c =
    if is_pos64 r.opts.max && ltb r.opts.max (length c.found)
    then (inr (too_many (length c.found) r.opts.max), record r { vanished_at = c.vanished_at })
    else let paths = sort_strings (keys c.found) in
      let gone = absent_from c.found (keys r.known) in
      (
        inl (record {
          targets = mark_overlaps (targets_at c.found paths);
          added = absent_from r.known paths;
          removed = sort_strings gone;
          warnings = c.warnings;
        }),
        record r { vanished_at = delete_all gone c.vanished_at; known = c.found },
      )

unfoldable pub resolve : Host → ℕ → Resolver → (Resolution ⊎ ResolveError) × Resolver
resolve host now r = elim r.patterns [
  | [] ↦ (inr no_patterns, r)
  | _ ∷ _ ↦ elim (match_all host r.patterns ([], [])) [
    | inr pattern ↦ (inr (invalid_pattern pattern), r)
    | inl (found, warnings) ↦ publish r (
        carry_forward r.opts now r.known
          (record { found = found; vanished_at = r.vanished_at; warnings = warnings }))
  ]
]
