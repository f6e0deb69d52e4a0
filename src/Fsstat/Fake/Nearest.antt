-- ===== src/Fsstat/Fake/Nearest.antt =====
-- `StatFS` of internal/fsstat/fake.go finds the nearest filesystem above a path.
use directory_size_exporter.Base.{
  ℕ, zero, suc, ◌+◌, ◌<◌, ◌≡◌, ◌≢◌, inl, inr, refl, ap, subst, ◌∙◌, Option, none, some, List, Str,
  str_eq, str_beq_iff, ◌==◌, length, arith, Bool-cases, Option-cases,
}
use directory_size_exporter.Base.Dict.{lookup}
use directory_size_exporter.Collector.Filesystem.{FsInfo}
use directory_size_exporter.Fsstat.Linux.{parent_of}
use directory_size_exporter.Fsstat.Linux.Mountpoint.{ancestor, Enough, Enough-above}
use directory_size_exporter.Fsstat.Fake.{FakeFs}
use directory_size_exporter.Fsstat.Fake.Paths.{clean}
use directory_size_exporter.Fsstat.Fake.Handles.{search_info, stat_fs}

module _ (infos : List (Str × FsInfo)) where
  -- The answer is that of the first ancestor that has one, where there is one.
  abbrev pub Nearest : Str → Option FsInfo → Type 0
  Nearest p none = (i : ℕ) → lookup (ancestor i p) infos ≡ none
  Nearest p (some info) =
      (k : ℕ) × (lookup (ancestor k p) infos ≡ some info)
      × ((i : ℕ) → i < k → lookup (ancestor i p) infos ≡ none)

  top_stays : (p : Str) → parent_of p ≡ p → (i : ℕ) → ancestor i p ≡ p
  top_stays p top zero = refl
  top_stays p top (suc i) = ap (ancestor i) top ∙ top_stays p top i

  above_none :
      (p : Str)
      → lookup p infos ≡ none
      → ((i : ℕ) → lookup (ancestor i (parent_of p)) infos ≡ none)
      → (i : ℕ) → lookup (ancestor i p) infos ≡ none
  above_none p here above zero = here
  above_none p here above (suc i) = above i

  below_none :
      (p : Str) (k : ℕ)
      → lookup p infos ≡ none
      → ((i : ℕ) → i < k → lookup (ancestor i (parent_of p)) infos ≡ none)
      → (i : ℕ) → i < suc k
      → lookup (ancestor i p) infos ≡ none
  below_none p k here above zero lt = here
  below_none p k here above (suc i) lt = above i (omega (arith, lt))

  Nearest-up :
      (p : Str) (answer : Option FsInfo)
      → lookup p infos ≡ none
      → Nearest (parent_of p) answer
      → Nearest p answer
  Nearest-up p none here above = above_none p here above
  Nearest-up p (some info) here (k, found, above) = (suc k, found, below_none p k here above)

  search_info-Nearest : (fuel : ℕ) (p : Str) → Enough p fuel → Nearest p (search_info fuel infos p)
  unfolding search_info
  search_info-Nearest zero p (inl (_, enough)) = absurd (omega (arith, enough))
  search_info-Nearest zero p (inr enough) = absurd (omega (arith, enough))
  search_info-Nearest (suc fuel) p enough = elim (Option-cases (lookup p infos)) [
    | inr (info, found) ↦
        let e : some info ≡ search_info (suc fuel) infos p = ground (arith, found) in
        subst (Nearest p) e (0, found, λ i lt. absurd (omega (arith, lt)))
    | inl here ↦ elim (Bool-cases (parent_of p == p)) [
      | inl top ↦
          let own = (str_beq_iff (parent_of p) p).0 top in
          let e : none ≡ search_info (suc fuel) infos p = ground (arith, here, top) in
          subst (Nearest p) e (λ i. ap (λ q. lookup q infos) (top_stays p own i) ∙ here)
      | inr more ↦
          let up : parent_of p ≢ p =
            λ e. absurd (ground (arith, more, e, str_beq_iff (parent_of p) p)) in
          let e : search_info fuel infos (parent_of p) ≡ search_info (suc fuel) infos p =
            ground (arith, here, more) in
          subst (Nearest p) e (
            Nearest-up p _ here
              (search_info-Nearest fuel (parent_of p) (Enough-above p fuel up enough)))
    ]
  ]

-- `StatFS` answers for every path, with the filesystem set for the path itself or else for its nearest
-- ancestor that has one, and fails only where no ancestor has one.
pub stat_fs-Nearest : (p : Str) (f : FakeFs) → Nearest f.infos (clean p) (stat_fs p f)
unfolding stat_fs
stat_fs-Nearest p f =
    search_info-Nearest f.infos (length (clean p) + 2) (clean p) (inr (omega arith))
