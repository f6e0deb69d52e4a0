-- ===== src/Targets/Overlap.antt =====
-- `isUnder` and `markOverlaps` (internal/targets/resolver.go), against the components of a path.
use directory_size_exporter.Base.{
  ℕ, ◌≡◌, ◌≢◌, refl, Bool, true, false, ◌&&◌, List, All, [], ◌∷◌, ◌++◌, Str, str_eq, arith,
  if◌then◌else◌, ◌==◌, nat_beq, str_beq, str_beq_iff,
}
use directory_size_exporter.Base.Dict.{contains}
use directory_size_exporter.Targets.{Target, paths_of, overlaps_of, mark_each, mark_overlaps}
use directory_size_exporter.Targets.Paths.{separator, has_prefix, ends_in_separator, is_under}

-- A character put before the first component.
abbrev pub extend : ℕ → List Str → List Str
extend c [] = (c ∷ []) ∷ []
extend c (name ∷ names) = (c ∷ name) ∷ names

-- The components of a path: what stands between its separators.
unfoldable pub components : Str → List Str
components [] = [] ∷ []
components (c ∷ s) =
    let rest = components s in if nat_beq c separator then [] ∷ rest else extend c rest

-- The second list of components is the first with at least one more.
unfoldable pub is_inside : List Str → List Str → Bool
is_inside [] [] = false
is_inside [] (_ ∷ _) = true
is_inside (_ ∷ _) [] = false
is_inside (a ∷ l) (b ∷ m) = a == b && is_inside l m

-- Every path has a first component.
first_component : (s : Str) → components s ≢ []
unfolding components
first_component [] h = ground arith
first_component (c ∷ s) h = ground (arith, first_component s)

is_inside-extend :
    (c d : ℕ) (l m : List Str)
    → l ≢ []
    → m ≢ []
    → is_inside (extend c l) (extend d m) ≡ (nat_beq c d && is_inside l m)
unfolding is_inside str_beq
is_inside-extend c d [] bs ha hb = absurd (ha refl)
is_inside-extend c d (a ∷ l) [] ha hb = absurd (hb refl)
is_inside-extend c d (a ∷ l) (b ∷ m) ha hb = ground arith

prefix-components :
    (parent child : Str)
    → has_prefix child (parent ++ separator ∷ []) ≡ is_inside (components parent) (components child)
unfolding has_prefix components is_inside str_beq
prefix-components [] [] = ground arith
prefix-components [] (d ∷ child) = ground (arith, first_component child)
prefix-components (c ∷ parent) [] = ground (arith, first_component parent)
prefix-components (c ∷ parent) (d ∷ child) = ground (
  arith,
  prefix-components parent child,
  is_inside-extend c d (components parent) (components child) (first_component parent)
      (first_component child),
  first_component parent,
  first_component child,
)

is_inside_self : (l : List Str) → is_inside l l ≡ false
unfolding is_inside
is_inside_self [] = refl
is_inside_self (a ∷ l) = ground (arith, is_inside_self l)

-- A path that does not end in a separator contains exactly the paths whose components are its own and
-- at least one more, so that a longer last name is no containment.
pub is_under-components :
    (child parent : Str)
    → ends_in_separator parent ≡ false
    → is_under child parent ≡ is_inside (components parent) (components child)
unfolding is_under
is_under-components child parent h = ground (
  arith,
  h,
  prefix-components parent child,
  is_inside_self (components parent),
  str_beq_iff child parent,
)

contains-overlaps_of :
    (path : Str) (targets : List Target) (k : Str)
    → contains k (overlaps_of path targets) ≡ (contains k (paths_of targets) && is_under path k)
unfolding contains
contains-overlaps_of path [] k = refl
contains-overlaps_of path (other ∷ others) k =
    ground (arith, contains-overlaps_of path others k, str_beq_iff other.path k)

overlaps-mark_each :
    (everything targets : List Target) (k : Str)
    → ends_in_separator k ≡ false
    → All (λ target. target.overlaps ≡ []) targets
    → All
        (λ target.
          contains k target.overlaps
          ≡ (contains k (paths_of everything) && is_inside (components k) (components target.path)))
        (mark_each everything targets)
overlaps-mark_each everything [] k bare h = tt
overlaps-mark_each everything (target ∷ targets) k bare h = (
  rw (h.0, ← is_under-components target.path k bare)
      (contains-overlaps_of target.path everything k),
  overlaps-mark_each everything targets k bare h.1,
)

-- From targets without overlaps, `mark_overlaps` leaves in the overlaps of each the paths of exactly
-- those targets that contain it: those whose components it has, with at least one more, so that
-- `/var/logger` is not under `/var/log`. This is said of a path that does not end in a separator.
pub mark_overlaps_exact :
    (targets : List Target) (k : Str)
    → ends_in_separator k ≡ false
    → All (λ target. target.overlaps ≡ []) targets
    → All
        (λ target.
          contains k target.overlaps
          ≡ (contains k (paths_of targets) && is_inside (components k) (components target.path)))
        (mark_overlaps targets)
unfolding mark_overlaps
mark_overlaps_exact targets k bare h = overlaps-mark_each targets targets k bare h
