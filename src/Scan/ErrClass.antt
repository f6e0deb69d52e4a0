-- ===== src/Scan/ErrClass.antt =====
-- internal/scan/errclass.go: error classes, vanished entries, and the tally of one scan.
pub mod Laws
use directory_size_exporter.Base.{
  ℕ, ◌+◌, ◌≡◌, refl, Bool, true, false, ◌&&◌, ◌||◌, Option, none, some, List, [], ◌∷◌, Str, str,
  str_eq, if◌then◌else◌, ◌==◌, add64, nat_beq,
}
use directory_size_exporter.Base.Dict.{lookup, insert}

-- The syscall.Errno values that the source names, and every other one.
pub data Errno : Type 0 where
  eloop enametoolong emfile enfile eio enxio enodev enotdir estale : Errno
  other_errno : ℕ → Errno

-- What the source observes of a non-nil error: `errors.Is` with the sentinels fs.ErrPermission,
-- fs.ErrNotExist and io.EOF, and the syscall.Errno that `errors.As` finds.
pub record Error : Type 0 where
  pub is_permission : Bool
  pub is_not_exist : Bool
  pub is_eof : Bool
  pub errno : Option Errno

abbrev pub class_permission : Str
class_permission = str "permission"

abbrev pub class_not_found : Str
class_not_found = str "not_found"

abbrev pub class_io : Str
class_io = str "io"

abbrev pub class_loop : Str
class_loop = str "loop"

abbrev pub class_name_too_long : Str
class_name_too_long = str "name_too_long"

abbrev pub class_too_many_files : Str
class_too_many_files = str "too_many_files"

abbrev pub class_other : Str
class_other = str "other"

abbrev pub all_error_classes : List Str
all_error_classes =
    class_permission ∷ class_not_found ∷ class_io ∷ class_loop ∷ class_name_too_long
    ∷ class_too_many_files ∷ class_other ∷ []

-- The inner `switch errno` of `classify`.
unfoldable pub classify_errno : Option Errno → Str
classify_errno (some eloop) = class_loop
classify_errno (some enametoolong) = class_name_too_long
classify_errno (some emfile) = class_too_many_files
classify_errno (some enfile) = class_too_many_files
classify_errno (some eio) = class_io
classify_errno (some enxio) = class_io
classify_errno (some enodev) = class_io
classify_errno (some enotdir) = class_io
classify_errno (some estale) = class_io
classify_errno _ = class_other

-- A nil error has the empty class.
unfoldable pub classify : Option Error → Str
unfolding classify_errno
classify none = []
classify (some err) =
    if err.is_permission
    then class_permission
    else if err.is_not_exist
    then class_not_found
    else classify_errno err.errno

abbrev is_estale : Option Errno → Bool
is_estale (some estale) = true
is_estale _ = false

unfoldable pub is_vanished : Error → Bool
is_vanished err = err.is_not_exist || is_estale err.errno

pub record ErrorTally : Type 0 where
  pub counts : List (Str × ℕ)
  pub total : ℕ

abbrev pub no_errors : ErrorTally
no_errors = record { counts = []; total = 0 }

-- `m[class]`, 0 where the class is absent.
abbrev pub count_of : Str → List (Str × ℕ) → ℕ
count_of class counts = elim (lookup class counts) [ none ↦ 0 | some n ↦ n ]

-- The method `add`.
unfoldable pub add_error : Option Error → ErrorTally → ErrorTally
unfolding classify
add_error err t =
    let class = classify err in
    if class == [] then t else record t {
      counts = insert class (add64 (count_of class t.counts) 1) t.counts;
      total = add64 t.total 1;
    }

-- The loop of `merge`.
unfoldable pub merge_counts : List (Str × ℕ) → List (Str × ℕ) → List (Str × ℕ)
merge_counts [] counts = counts
merge_counts ((class, n) ∷ other) counts =
    merge_counts other (insert class (add64 (count_of class counts) n) counts)

unfoldable pub merge : ErrorTally → ErrorTally → ErrorTally
unfolding merge_counts
merge other t =
    if nat_beq other.total 0
    then t
    else record t { counts = merge_counts other.counts t.counts; total = add64 t.total other.total }
