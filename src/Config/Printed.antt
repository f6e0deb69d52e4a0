-- ===== src/Config/Printed.antt =====
-- `value` (internal/config/registry.go), which prints a setting for the audit.
pub mod Digits
pub mod ReadBack
use mathlib.Core.Option
use directory_size_exporter.Base.{
  ℕ, zero, suc, ◌+◌, ◌-◌, ◌*◌, ◌/◌, ◌%◌, ◌^◌, ◌≤◌, ◌<◌, ◌≡◌, refl, sym, ◌∙◌, ap, Bool, true, false,
  Bool-cases, inl, inr, not, ◌&&◌, ◌||◌, Option, none, some, List, [], ◌∷◌, ◌++◌, All, All-append,
  Str, str, str_eq, str_beq, ◌==◌, arith, if◌then◌else◌, nat_beq, ltb, leb, length,
}
use directory_size_exporter.Base.Dict.{contains}
use directory_size_exporter.Targets.Paths.{is_space, trim_space, is_empty}
use directory_size_exporter.Config.{
  Tristate, tri_auto, tri_true, tri_false, set_tristate, show_tristate,
}
use directory_size_exporter.Config.Fields.{
  split_commas, trimmed_parts, unsigned, non_negative, negated, Kind, kind_string, kind_strings,
  kind_int, kind_float, kind_bool, kind_duration, kind_tristate, Value, text, texts, int, float,
  bool, duration, tristate, parse_bool, digits, atoi, Parsers, set,
}

-- `strconv.Itoa`; a number has at most as many digits as the fuel.
unfoldable pub show_digits : ℕ → ℕ → Str
show_digits zero n = []
show_digits (suc fuel) n =
    let rest = show_digits fuel (n / 10) in
    if ltb n 10 then (48 + n) ∷ [] else rest ++ (48 + n % 10) ∷ []

abbrev pub itoa : ℕ → Str
itoa n = if ltb n (2 ^ 63) then show_digits 20 n else 45 ∷ show_digits 20 (2 ^ 64 - n)

-- `strconv.FormatBool`
abbrev pub show_bool : Bool → Str
show_bool true = str "true"
show_bool false = str "false"

-- `strings.Join(parts, ",")`
abbrev pub join : List Str → Str
join [] = []
join (part ∷ []) = part
join (part ∷ next ∷ parts) = part ++ (44 ∷ join (next ∷ parts))

-- `strconv.FormatFloat` and `Duration.String`
pub record Printers : Type 0 where
  pub show_float : ℕ → Str
  pub show_duration : ℕ → Str

unfoldable pub show_value : Printers → Value → Str
show_value printers (text s) = s
show_value printers (texts parts) = join parts
show_value printers (int n) = itoa n
show_value printers (float x) = printers.show_float x
show_value printers (bool b) = show_bool b
show_value printers (duration d) = printers.show_duration d
show_value printers (tristate t) = show_tristate t
