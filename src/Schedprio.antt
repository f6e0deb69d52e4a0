-- ===== src/Schedprio.antt =====
-- internal/schedprio/schedprio.go: the class of I/O scheduling of the scan workers.
pub mod Linux
use directory_size_exporter.Base.{
  ◌≡◌, refl, Option, none, some, [], ◌∷◌, Str, str, str_eq, str_beq, ◌==◌, if◌then◌else◌,
}
use directory_size_exporter.Base.Dict.{contains}
use directory_size_exporter.Targets.Paths.{trim_space, is_empty}
use directory_size_exporter.Config.{to_lower}

pub data IoClass : Type 0 where
  class_none : IoClass
  best_effort : IoClass
  class_idle : IoClass

-- `ParseIOClass`; `none` is the error.
unfoldable pub parse_io_class : Str → Option IoClass
parse_io_class raw =
    let text = to_lower (trim_space raw) in
    if text == str "idle"
    then some class_idle
    else if text == str "best-effort"
    then some best_effort
    else if contains text (str "none" ∷ str "" ∷ [])
    then some class_none
    else none

-- `String`
abbrev pub show_io_class : IoClass → Str
show_io_class class_idle = str "idle"
show_io_class best_effort = str "best-effort"
show_io_class class_none = str "none"

-- The text of a class is read back as that class.
pub parse-show_io_class : (c : IoClass) → parse_io_class (show_io_class c) ≡ some c
unfolding parse_io_class str_beq contains trim_space is_empty
parse-show_io_class class_idle = refl
parse-show_io_class best_effort = refl
parse-show_io_class class_none = refl
