-- ===== src/Fsstat/Fake/Paths.antt =====
-- The paths of internal/fsstat/fake.go, and the functions of Go's package path that it calls.
use directory_size_exporter.Base.{
  ℕ, Bool, false, ◌||◌, List, [], ◌∷◌, ◌++◌, Str, str, str_eq, ◌==◌, nat_beq, if◌then◌else◌,
}
use directory_size_exporter.Targets.Overlap.{components}
use directory_size_exporter.Targets.Paths.{is_empty, separator}

abbrev pub backslash : ℕ
backslash = 92

-- `replaceSeparators`
unfoldable pub replace_separators : Str → Str
replace_separators [] = []
replace_separators (c ∷ p) = (if nat_beq c backslash then separator else c) ∷ replace_separators p

-- `containsSeparator`
unfoldable pub contains_separator : Str → Bool
contains_separator [] = false
contains_separator (c ∷ name) =
    nat_beq c separator || nat_beq c backslash || contains_separator name

-- One component of `path.Clean`, on the components that are kept so far, the last one first.
abbrev pub keep_component : Bool → List Str → Str → List Str
keep_component rooted kept name =
    if name == [] || name == str "."
    then kept
    else if name == str ".."
    then go_up rooted kept
    else name ∷ kept
  where
    go_up : Bool → List Str → List Str
    go_up rooted [] = if rooted then [] else str ".." ∷ []
    go_up rooted (top ∷ kept) = if top == str ".." then str ".." ∷ top ∷ kept else kept

abbrev pub keep_components : Bool → List Str → List Str → List Str
keep_components rooted kept [] = kept
keep_components rooted kept (name ∷ names) =
    keep_components rooted (keep_component rooted kept name) names

-- The components, the last one first, with separators between them, before `tail`.
abbrev pub join_components : List Str → Str → Str
join_components [] tail = tail
join_components (name ∷ names) tail =
    join_components names (name ++ (if is_empty tail then [] else separator ∷ tail))

abbrev pub is_rooted : Str → Bool
is_rooted [] = false
is_rooted (c ∷ p) = nat_beq c separator

-- `path.Clean`
unfoldable pub path_clean : Str → Str
path_clean p =
    let body = join_components (keep_components (is_rooted p) [] (components p)) [] in
    if is_rooted p then separator ∷ body else if is_empty body then str "." else body

-- `clean`
unfoldable pub clean : Str → Str
unfolding path_clean replace_separators
clean p =
    let cleaned = path_clean (replace_separators p) in
    if cleaned == str "." then str "/" else cleaned

-- `path.Join` of a directory, which is not empty, and a name.
unfoldable pub path_join : Str → Str → Str
unfolding path_clean
path_join dir name = path_clean (dir ++ (separator ∷ name))

-- What follows the last separator, `current` where there is none.
abbrev pub after_last : Str → Str → Str
after_last current [] = current
after_last current (c ∷ p) = after_last (if nat_beq c separator then p else current) p

-- `path.Base` of a clean path.
unfoldable pub base_of : Str → Str
base_of p = let name = after_last p p in if is_empty name then str "/" else name
