-- ===== src/Scan/ErrClass/Laws.antt =====
-- The classes of internal/scan/errclass.go are the listed ones, and a tally adds up.
use directory_size_exporter.Base.{
  ℕ, ◌+◌, ◌%◌, ◌^◌, ◌≡◌, refl, Bool, true, false, Option, none, some, All, List, [], ◌∷◌, Str,
  str_eq, str_beq, arith, if◌then◌else◌, add64,
}
use directory_size_exporter.Base.Dict.{lookup, insert, contains}
use directory_size_exporter.Scan.ErrClass.{
  Errno, eloop, enametoolong, emfile, eio, Error, all_error_classes, classify_errno, classify,
  ErrorTally, no_errors, count_of, add_error, merge_counts, merge, class_permission,
  class_not_found,
}

listed_errno : (e : Option Errno) → contains (classify_errno e) all_error_classes ≡ true
unfolding classify_errno contains str_beq
listed_errno none = refl
listed_errno (some eloop) = refl
listed_errno (some enametoolong) = refl
listed_errno (some emfile) = refl
listed_errno (some e) = refl

listed : (err : Error) → contains (classify (some err)) all_error_classes ≡ true
unfolding classify contains str_beq
listed record_err = go record_err.is_permission record_err.is_not_exist
  where
    go :
        (permission missing : Bool)
        → contains
            (if permission
              then class_permission
              else if missing
              then class_not_found
              else classify_errno record_err.errno)
            all_error_classes
          ≡ true
    go true _ = refl
    go false true = refl
    go false false = listed_errno record_err.errno

-- Some error has the class.
abbrev pub Reached : Str → Type 0
Reached class = (err : Error) × (classify (some err) ≡ class)

abbrev plain : Option Errno → Error
plain e = record { is_permission = false; is_not_exist = false; is_eof = false; errno = e }

-- The list of error classes is exact: every error falls in a listed class, every listed class is
-- that of some error, and the empty class, which is not listed, is that of a nil error alone.
pub all_error_classes_exact :
    (err : Error)
    → (contains (classify (some err)) all_error_classes ≡ true)
      × All Reached all_error_classes
      × (classify none ≡ [])
      × (contains [] all_error_classes ≡ false)
unfolding classify contains str_beq
all_error_classes_exact err = (
  listed err,
  (
    (record (plain none) { is_permission = true }, refl),
    (
      (record (plain none) { is_not_exist = true }, refl),
      (
        (plain (some eio), refl),
        (
          (plain (some eloop), refl),
          (
            (plain (some enametoolong), refl),
            ((plain (some emfile), refl), ((plain none, refl), tt)),
          ),
        ),
      ),
    ),
  ),
  refl,
  refl,
)

unfoldable pub sum_counts : List (Str × ℕ) → ℕ
sum_counts [] = 0
sum_counts ((class, n) ∷ counts) = n + sum_counts counts

sum_counts-insert :
    (class : Str) (n : ℕ) (counts : List (Str × ℕ))
    → sum_counts (insert class n counts) + count_of class counts ≡ sum_counts counts + n
unfolding sum_counts insert lookup
sum_counts-insert class n [] = omega arith
sum_counts-insert class n ((j, w) ∷ counts) = ground (arith, sum_counts-insert class n counts)

-- The total is the sum of the counts, modulo 2 ^ 64.
pub record IsBalanced (t : ErrorTally) : Type 0 where
  pub summed : sum_counts t.counts % 2 ^ 64 ≡ t.total % 2 ^ 64

add_error-IsBalanced :
    (err : Option Error) (t : ErrorTally) → IsBalanced t → IsBalanced (add_error err t)
unfolding add_error
add_error-IsBalanced err t h =
    ground (
      arith,
      sum_counts-insert (classify err) (add64 (count_of (classify err) t.counts) 1) t.counts,
    )

sum_counts-merge_counts :
    (other counts : List (Str × ℕ))
    → sum_counts (merge_counts other counts) % 2 ^ 64
      ≡ (sum_counts other + sum_counts counts) % 2 ^ 64
unfolding merge_counts sum_counts
sum_counts-merge_counts [] counts = omega arith
sum_counts-merge_counts ((class, n) ∷ other) counts =
    let sum = add64 (count_of class counts) n in
    omega (
      arith,
      sum_counts-merge_counts other (insert class sum counts),
      sum_counts-insert class sum counts,
    )

merge-IsBalanced :
    (other t : ErrorTally) → IsBalanced other → IsBalanced t → IsBalanced (merge other t)
unfolding merge
merge-IsBalanced other t h k = ground (arith, sum_counts-merge_counts other.counts t.counts)

-- How a tally comes about.
pub data Tally : ErrorTally → Type 0 where
  none_yet : Tally no_errors
  added : {t : ErrorTally} (err : Option Error) → Tally t → Tally (add_error err t)
  merged : {other t : ErrorTally} → Tally other → Tally t → Tally (merge other t)

Tally-IsBalanced : {t : ErrorTally} → Tally t → IsBalanced t
unfolding sum_counts
Tally-IsBalanced none_yet = omega arith
Tally-IsBalanced (added err h) = add_error-IsBalanced err _ (Tally-IsBalanced h)
Tally-IsBalanced (merged h k) = merge-IsBalanced _ _ (Tally-IsBalanced h) (Tally-IsBalanced k)

-- In every tally that adding errors and merging tallies can make, the total is the sum of the
-- counts by class, modulo 2 ^ 64.
pub total_sums_counts : (t : ErrorTally) → Tally t → sum_counts t.counts % 2 ^ 64 ≡ t.total % 2 ^ 64
total_sums_counts t h = (Tally-IsBalanced h).summed

-- Adding an error always counts.
pub total-add_error :
    (err : Error) (t : ErrorTally) → (add_error (some err) t).total ≡ add64 t.total 1
unfolding add_error contains str_beq
total-add_error err t = ground (arith, listed err)
