-- ===== src/Fsstat/Linux/Mountpoint.antt =====
-- `mountpointOf` (internal/fsstat/fsstat_linux.go) comes to an end at the mount point.
use directory_size_exporter.Base.{
  ℕ, zero, suc, ◌+◌, ◌≤◌, ◌≡◌, ◌≢◌, refl, sym, ap, ◌⊎◌, inl, inr, Bool-cases, Option, some,
  Option-cases, [], ◌∷◌, Str, str, str_eq, str_beq_iff, ◌==◌, arith, nat_beq, length,
}
use directory_size_exporter.Targets.Paths.{is_empty}
use directory_size_exporter.Fsstat.Fake.Paths.{path_clean}
use directory_size_exporter.Fsstat.Linux.{before_last, parent_of, climb, mountpoint_of}

-- The path, its parent, the parent of that, and so on.
abbrev pub ancestor : ℕ → Str → Str
ancestor zero path = path
ancestor (suc k) path = ancestor k (parent_of path)

-- The loop may stop at `m`: above it nothing is known to be on the device.
abbrev pub Stops : (Str → Option ℕ) → ℕ → Str → Type 0
Stops device dev m = (parent_of m ≡ m) ⊎ (device (parent_of m) ≢ some dev)

length-before_last : (s dir : Str) → before_last s ≡ some dir → suc (length dir) ≤ length s
length-before_last [] dir h = absurd (ground (arith, h))
length-before_last (c ∷ s) dir h = elim (Option-cases (before_last s)) [
  | inl last ↦ ground (arith, h, last)
  | inr (dir', more) ↦
      let same : c ∷ dir' ≡ dir = ground (arith, h, more) in
      let longer : length dir ≡ suc (length dir') = ap length (sym same) in
      ground (arith, longer, length-before_last s dir' more)
]

-- Where the parent differs, it is one of the two tops, or it is shorter.
pub parent-cases :
    (path : Str)
    → (parent_of path ≡ str ".")
      ⊎ ((parent_of path ≡ str "/") ⊎ (suc (length (parent_of path)) ≤ length path))
unfolding parent_of
parent-cases path = elim (Option-cases (before_last path)) [
  | inl none_there ↦ inl (ground (arith, none_there))
  | inr (dir, there) ↦ elim (Bool-cases (is_empty dir)) [
    | inl empty ↦ inr (inl (ground (arith, there, empty)))
    | inr full ↦
        let same : parent_of path ≡ dir = ground (arith, there, full) in
        inr (inr (ground (arith, ap length same, length-before_last path dir there)))
  ]
]

-- Enough fuel: for the top of the tree and for `.` one round.
abbrev pub Enough : Str → ℕ → Type 0
Enough path fuel = (((path ≡ str ".") ⊎ (path ≡ str "/")) × (1 ≤ fuel)) ⊎ (length path + 2 ≤ fuel)

pub top_is_own_parent : (path : Str) → (path ≡ str ".") ⊎ (path ≡ str "/") → parent_of path ≡ path
unfolding parent_of is_empty
top_is_own_parent path (inl dot) = rw dot refl
top_is_own_parent path (inr root) = rw root refl

pub Enough-above :
    (path : Str) (fuel : ℕ)
    → parent_of path ≢ path
    → Enough path (suc fuel)
    → Enough (parent_of path) fuel
Enough-above path fuel up (inl (top, _)) = absurd (up (top_is_own_parent path top))
Enough-above path fuel up (inr enough) = elim (parent-cases path) [
  | inl dot ↦ inl (inl dot, omega (arith, enough))
  | inr (inl root) ↦ inl (inr root, omega (arith, enough))
  | inr (inr shorter) ↦ inr (omega (arith, enough, shorter))
]

module _ (device : Str → Option ℕ) (dev : ℕ) where
  -- Where the loop ends: at an ancestor, all of whose way down is on the device.
  abbrev pub Ends : Str → Option Str → Type 0
  Ends path answer =
      (m : Str) × (k : ℕ) × (answer ≡ some m)
      × (m ≡ ancestor k path)
      × ((i : ℕ) → i ≤ k → device (ancestor i path) ≡ some dev)
      × Stops device dev m

  here :
      (path : Str) → device path ≡ some dev → (i : ℕ) → i ≤ 0 → device (ancestor i path) ≡ some dev
  here path h zero le = h
  here path h (suc i) le = absurd (omega (arith, le))

  step_up :
      (path : Str) (k : ℕ)
      → device path ≡ some dev
      → ((i : ℕ) → i ≤ k → device (ancestor i (parent_of path)) ≡ some dev)
      → (i : ℕ) → i ≤ suc k
      → device (ancestor i path) ≡ some dev
  step_up path k h above zero le = h
  step_up path k h above (suc i) le = above i (omega (arith, le))

  climb-Ends :
      (fuel : ℕ) (path : Str)
      → device path ≡ some dev
      → Enough path fuel
      → Ends path (climb device dev fuel path)
  unfolding climb
  climb-Ends zero path h (inl (_, enough)) = absurd (omega (arith, enough))
  climb-Ends zero path h (inr enough) = absurd (omega (arith, enough))
  climb-Ends (suc fuel) path h enough = elim (Bool-cases (parent_of path == path)) [
    | inl top ↦
        let own = (str_beq_iff (parent_of path) path).0 top in
        (path, 0, ground (arith, top), refl, here path h, inl own)
    | inr up ↦ elim (Option-cases (device (parent_of path))) [
      | inl unknown ↦ (
        path,
        0,
        ground (arith, up, unknown),
        refl,
        here path h,
        inr (λ e. absurd (ground (arith, e, unknown))),
      )
      | inr (dev', known) ↦ elim (Bool-cases (nat_beq dev' dev)) [
        | inr other ↦ (
          path,
          0,
          ground (arith, up, known, other),
          refl,
          here path h,
          inr (λ e. absurd (ground (arith, e, known, other))),
        )
        | inl same ↦
            let distinct : parent_of path ≢ path =
              λ e. absurd (ground (arith, up, e, str_beq_iff (parent_of path) path)) in
            let (m, k, found, at, down, stops) =
              climb-Ends fuel (parent_of path) (ground (arith, known, same))
                (Enough-above path fuel distinct enough) in
            (m, suc k, ground (arith, up, known, same, found), at, step_up path k h down, stops)
      ]
    ]
  ]

-- The search for the mount point of a path that can be read ends, and its answer is an ancestor of
-- the path, as filepath.Clean gives it, on the same device: it and all that is between it and the path
-- is on the device of the path, and it has no parent, or one that is on another device or cannot be
-- read.
pub mountpoint_found :
    (device : Str → Option ℕ) (path : Str) (dev : ℕ)
    → device path ≡ some dev
    → device (path_clean path) ≡ some dev
    → (answer : Option Str) × (mountpoint_of device path ≡ some (answer, dev))
      × Ends device dev (path_clean path) answer
unfolding mountpoint_of
mountpoint_found device path dev h h' = (
  climb device dev (length (path_clean path) + 3) (path_clean path),
  ground (arith, h),
  climb-Ends device dev (length (path_clean path) + 3) (path_clean path) h' (inr (omega arith)),
)
