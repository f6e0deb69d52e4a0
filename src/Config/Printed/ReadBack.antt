-- ===== src/Config/Printed/ReadBack.antt =====
-- `set` reads back what `value` prints (internal/config/registry.go).
use mathlib.Core.Option
use directory_size_exporter.Base.{
  ℕ, ltb, ◌^◌, ◌<◌, ◌≡◌, true, false, some, All, Str, str_eq, nat_beq,
}
use directory_size_exporter.Targets.Paths.{is_space, is_empty}
use directory_size_exporter.Config.Fields.{
  Kind, kind_string, kind_strings, kind_int, kind_float, kind_bool, kind_duration, kind_tristate,
  Value, text, texts, int, float, bool, duration, tristate, Parsers,
}
use directory_size_exporter.Config.Printed.{Printers}
use directory_size_exporter.Config.Printed.Digits.{IsTrimmed}

-- A part of a list: ASCII, without a space or a comma.
abbrev IsPartByte : ℕ → Type 0
IsPartByte c = ((is_space c ≡ false) × (ltb c 128 ≡ true)) × (nat_beq c 44 ≡ false)

abbrev pub IsPart : Str → Type 0
IsPart part = (is_empty part ≡ false) × All IsPartByte part

abbrev pub kind_of_value : Value → Kind
kind_of_value (text _) = kind_string
kind_of_value (texts _) = kind_strings
kind_of_value (int _) = kind_int
kind_of_value (float _) = kind_float
kind_of_value (bool _) = kind_bool
kind_of_value (duration _) = kind_duration
kind_of_value (tristate _) = kind_tristate

-- What a printed value must be like: a text neither starts nor ends with white space, the parts of a
-- list are of ASCII without spaces and commas, an int has 64 bits, and the library reads back what it
-- prints of a number or of a duration, which it prints without white space at the ends.
abbrev pub IsReadable : Parsers → Printers → Value → Type 0
IsReadable parsers printers (text s) = IsTrimmed s
IsReadable parsers printers (texts parts) = All IsPart parts
IsReadable parsers printers (int n) = n < 2 ^ 64
IsReadable parsers printers (float x) =
    IsTrimmed (printers.show_float x) × (parsers.parse_float (printers.show_float x) ≡ some x)
IsReadable parsers printers (bool b) = Unit
IsReadable parsers printers (duration d) =
    IsTrimmed (printers.show_duration d)
    × (parsers.parse_duration (printers.show_duration d) ≡ some d)
IsReadable parsers printers (tristate t) = Unit
