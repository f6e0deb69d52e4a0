-- ===== src/Tests/Settings.antt =====
-- Examples for internal/config/registry.go.
use directory_size_exporter.Base.{
  ◌-◌, ◌^◌, ℕ, ◌≡◌, refl, inl, Bool, true, false, Option, none, some, [], ◌∷◌, Str, str, str_eq,
  str_beq, str_beq_iff, ◌==◌, if◌then◌else◌, arith,
}
use mathlib.Core.Option
use directory_size_exporter.Base.Dict.{lookup, insert, contains}
use directory_size_exporter.Targets.Paths.{trim_space, is_empty, str_ltb, has_prefix}
use directory_size_exporter.Config.Fields.{
  Kind, kind_bool, kind_int, int, Parsers, set, atoi, digits,
}
use directory_size_exporter.Config.Arguments.{cut, normalize_args}
use directory_size_exporter.Config.Printed.{Printers, show_digits, show_value}
use directory_size_exporter.Config.Registry.{
  Source, source_default, source_yaml, source_env, source_flag, Setting, Registry, scalar, mapping,
  Entries, end, entry, env_name, flatten, sort_by_key, insert_by_key, set_from_yaml, apply_keys,
  apply_yaml, apply_env, mark_flags, resolve,
}
use directory_size_exporter.Config.Registry.Passes.{yaml_for}
use directory_size_exporter.Config.Registry.Precedence.{
  effective, entries_at, path_of, resolve_precedence,
}

abbrev parsers : Parsers
parsers = record { parse_float = λ s. none; parse_duration = λ s. some 0 }

-- A setting that holds an int.
abbrev setting : Str → Bool → ℕ → Source → Setting
setting name flag n source = record {
  field = record {
    name = name;
    kind = kind_int;
    def = str "0";
    yaml_alias = [];
    requires = none;
    no_yaml = false;
  };
  value = int n;
  set_by_flag = flag;
  source = source;
}

-- The flag of the second one is given.
abbrev registry : Registry
registry = record {
  fields =
      (str "scan.nice", setting (str "scan.nice") false 19 source_default)
      ∷ (str "scan.batch-size", setting (str "scan.batch-size") true 64 source_default)
      ∷ (str "scan.concurrency", setting (str "scan.concurrency") false 2 source_default)
      ∷ [];
  aliases = [];
}

abbrev env : Str → Option Str
env name = if name == str "DIR_EXPORTER_SCAN_NICE" then some (str " 5 ") else none

abbrev read_file : Str → Option Entries
read_file path = some (
    entry (str "scan")
      (mapping (
        entry (str "nice") (scalar (str "7")) (
          entry (str "concurrency") (scalar (str "8"))
            (entry (str "batch-size") (scalar (str "512")) end))))
      end)

abbrev resolved_registry : Registry
resolved_registry = record {
  fields =
      (str "scan.nice", setting (str "scan.nice") false 5 source_env)
      ∷ (str "scan.batch-size", setting (str "scan.batch-size") true 64 source_flag)
      ∷ (str "scan.concurrency", setting (str "scan.concurrency") false 8 source_yaml)
      ∷ [];
  aliases = [];
}

resolves : resolve parsers env read_file (str "/etc/e.yml") registry ≡ inl resolved_registry
unfolding resolve mark_flags apply_yaml apply_keys apply_env flatten sort_by_key insert_by_key
    lookup insert set_from_yaml set atoi digits trim_space is_empty str_ltb str_beq env_name
    Option.bind
resolves = refl

resolve_precedence_example :
    lookup (str "scan.nice") resolved_registry.fields
    ≡ effective parsers
        (env (env_name (str "scan.nice")))
        (yaml_for []
          (str "scan.nice")
          (entries_at read_file (path_of parsers env read_file (str "/etc/e.yml"))))
        (setting (str "scan.nice") false 19 source_default)
unfolding lookup str_beq
resolve_precedence_example =
    resolve_precedence parsers env read_file (str "/etc/e.yml") (str "scan.nice") registry
      resolved_registry (setting (str "scan.nice") false 19 source_default) resolves refl
      (λ e. absurd (ground (arith, (str_beq_iff (str "scan.nice") (str "config.file")).1 e)))

-- Only `web.enable-lifecycle` is Boolean.
abbrev kind_of : Str → Option Kind
kind_of name = if name == str "web.enable-lifecycle" then some kind_bool else none

-- What it makes of them.
normalizes :
    normalize_args kind_of (str "--web.enable-lifecycle=no" ∷ str "--path.target=/a=b" ∷ [])
    ≡ str "--no-web.enable-lifecycle" ∷ str "--path.target=/a=b" ∷ []
unfolding normalize_args cut str_beq has_prefix contains trim_space is_empty
normalizes = refl

abbrev printers : Printers
printers = record { show_float = λ x. []; show_duration = λ d. str "0s" }

prints : show_value printers (int (2 ^ 64 - 20)) ≡ str "-20"
unfolding show_value show_digits
prints = refl
