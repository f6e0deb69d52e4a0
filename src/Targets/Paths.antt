-- ===== src/Targets/Paths.antt =====
-- The string functions of internal/targets/resolver.go, and those of Go's strings and sort that it
-- calls.
use directory_size_exporter.Base.{
  ℕ, zero, suc, ◌-◌, ◌≡◌, refl, Bool, true, false, ◌&&◌, ◌||◌, List, [], ◌∷◌, ◌++◌, Str, str_eq,
  arith, if◌then◌else◌, ◌==◌, nat_beq, ltb,
}
use directory_size_exporter.Base.Dict.{contains}

-- `os.PathSeparator` on unix.
abbrev pub separator : ℕ
separator = 47

unfoldable pub is_empty : Str → Bool
is_empty [] = true
is_empty (_ ∷ _) = false

-- `strings.ContainsAny(pattern, "*?[")`
unfoldable pub has_meta : Str → Bool
has_meta [] = false
has_meta (c ∷ s) = nat_beq c 42 || nat_beq c 63 || nat_beq c 91 || has_meta s

-- `unicode.IsSpace` of the characters of one, two and three bytes in UTF-8.
abbrev pub is_space : ℕ → Bool
is_space c = (ltb 8 c && ltb c 14) || nat_beq c 32

abbrev pub is_space2 : ℕ → ℕ → Bool
is_space2 a b = nat_beq a 194 && (nat_beq b 133 || nat_beq b 160)

abbrev pub is_space3 : ℕ → ℕ → ℕ → Bool
is_space3 a b c =
    (nat_beq a 225 && (nat_beq b 154 && nat_beq c 128))
    || (nat_beq a 226
        && ((nat_beq b 128
              && ((ltb 127 c && ltb c 139) || nat_beq c 168 || nat_beq c 169 || nat_beq c 175))
            || (nat_beq b 129 && nat_beq c 159)))
    || (nat_beq a 227 && (nat_beq b 128 && nat_beq c 128))

-- How many bytes the white space has that a text starts with, and, for a text from its end to its
-- start, that it ends with; 0 where there is none.
unfoldable pub space_at_start : Str → ℕ
space_at_start [] = 0
space_at_start (a ∷ []) = if is_space a then 1 else 0
space_at_start (a ∷ b ∷ []) = if is_space a then 1 else if is_space2 a b then 2 else 0
space_at_start (a ∷ b ∷ c ∷ s) =
    if is_space a then 1 else if is_space2 a b then 2 else if is_space3 a b c then 3 else 0

unfoldable pub space_at_end : Str → ℕ
space_at_end [] = 0
space_at_end (c ∷ []) = if is_space c then 1 else 0
space_at_end (c ∷ b ∷ []) = if is_space c then 1 else if is_space2 b c then 2 else 0
space_at_end (c ∷ b ∷ a ∷ s) =
    if is_space c then 1 else if is_space2 b c then 2 else if is_space3 a b c then 3 else 0

-- The text without the next `skip` bytes and the white space after them.
unfoldable pub trim_by : (Str → ℕ) → ℕ → Str → Str
trim_by width skip [] = []
trim_by width (suc skip) (c ∷ s) = trim_by width skip s
trim_by width zero (c ∷ s) =
    let rest = trim_by width (width (c ∷ s) - 1) s in
    if nat_beq (width (c ∷ s)) 0 then c ∷ s else rest

-- The text from its end to its start, before `s`.
unfoldable pub back_onto : Str → Str → Str
back_onto s [] = s
back_onto s (c ∷ t) = back_onto (c ∷ s) t

-- `strings.TrimSpace`
unfoldable pub trim_space : Str → Str
unfolding trim_by back_onto space_at_start space_at_end
trim_space s = back_onto [] (trim_by space_at_end 0 (back_onto [] (trim_by space_at_start 0 s)))

-- `strings.HasPrefix(s, prefix)`, the arguments in that order.
unfoldable pub has_prefix : Str → Str → Bool
has_prefix s [] = true
has_prefix [] (p ∷ prefix) = false
has_prefix (c ∷ s) (p ∷ prefix) = nat_beq c p && has_prefix s prefix

-- `strings.HasSuffix(s, "/")`
unfoldable pub ends_in_separator : Str → Bool
ends_in_separator [] = false
ends_in_separator (c ∷ []) = nat_beq c separator
ends_in_separator (c ∷ d ∷ s) = ends_in_separator (d ∷ s)

-- `isUnder`
unfoldable pub is_under : Str → Str → Bool
is_under child parent =
    if child == parent
    then false
    else let prefix = if ends_in_separator parent then parent else parent ++ separator ∷ [] in
      has_prefix child prefix

-- The order of Go's strings: byte by byte.
unfoldable pub str_ltb : Str → Str → Bool
str_ltb [] [] = false
str_ltb [] (b ∷ t) = true
str_ltb (a ∷ s) [] = false
str_ltb (a ∷ s) (b ∷ t) = ltb a b || (nat_beq a b && str_ltb s t)

-- `sort.Strings`
unfoldable pub insert_sorted : Str → List Str → List Str
insert_sorted s [] = s ∷ []
insert_sorted s (t ∷ ts) =
    let rest = insert_sorted s ts in if str_ltb t s then t ∷ rest else s ∷ t ∷ ts

unfoldable pub sort_strings : List Str → List Str
sort_strings [] = []
sort_strings (s ∷ ss) = insert_sorted s (sort_strings ss)

contains-insert_sorted :
    (k s : Str) (ts : List Str) → contains k (insert_sorted s ts) ≡ (s == k || contains k ts)
unfolding insert_sorted contains
contains-insert_sorted k s [] = refl
contains-insert_sorted k s (t ∷ ts) = ground (arith, contains-insert_sorted k s ts)

pub contains-sort_strings : (k : Str) (ss : List Str) → contains k (sort_strings ss) ≡ contains k ss
unfolding sort_strings contains
contains-sort_strings k [] = refl
contains-sort_strings k (s ∷ ss) =
    ground (arith, contains-insert_sorted k s (sort_strings ss), contains-sort_strings k ss)
