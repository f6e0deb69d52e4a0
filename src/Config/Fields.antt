-- ===== src/Config/Fields.antt =====
-- internal/config/registry.go: the kinds of setting, the table of the settings, and what a text makes
-- of a setting.
use directory_size_exporter.Base.{
  leb, ℕ, ◌+◌, ◌-◌, ◌*◌, ◌^◌, Bool, true, false, ◌&&◌, Option, none, some, List, [], ◌∷◌, Str, str,
  str_eq, if◌then◌else◌, nat_beq, ltb, String,
}
use mathlib.Core.Option
use directory_size_exporter.Base.Dict.{contains}
use directory_size_exporter.Fsstat.{Capability, cap_inode, cap_alloc_bytes, cap_fs_bytes}
use directory_size_exporter.Targets.Paths.{trim_space, is_empty}
use directory_size_exporter.Config.{Tristate, set_tristate}

pub data Kind : Type 0 where
  kind_string kind_strings kind_int kind_float kind_bool kind_duration kind_tristate : Kind

-- What does not change of a `field`; without its help text.
pub record Field : Type 0 where
  pub name : Str
  pub kind : Kind
  pub def : Str
  pub yaml_alias : Str
  pub requires : Option Capability
  pub no_yaml : Bool

abbrev plain : String → Kind → String → Field
plain name kind def = record {
  name = str name;
  kind = kind;
  def = str def;
  yaml_alias = [];
  requires = none;
  no_yaml = false;
}

abbrev aliased : String → Kind → String → String → Field
aliased name kind def yaml_alias = record (plain name kind def) { yaml_alias = str yaml_alias }

abbrev needing : String → Kind → String → Capability → Field
needing name kind def cap = record (plain name kind def) { requires = some cap }

abbrev command_line : String → Kind → String → Field
command_line name kind def = record (plain name kind def) { no_yaml = true }

-- The fields of `NewRegistry`, in order.
abbrev pub registry_fields : List Field
registry_fields =
    aliased "path.target" kind_strings "" "targets"
    ∷ plain "targets.max" kind_int "200"
    ∷ plain "targets.retain-vanished" kind_duration "10m"
    ∷ plain "targets.refresh-interval" kind_duration "5m"
    ∷ plain "scan.interval" kind_duration "5m"
    ∷ plain "scan.timeout" kind_duration "0"
    ∷ plain "scan.hard-timeout" kind_duration "0"
    ∷ plain "scan.worker-drain-timeout" kind_duration "5s"
    ∷ plain "scan.statfs-timeout" kind_duration "5s"
    ∷ plain "scan.concurrency" kind_int "2"
    ∷ plain "scan.batch-size" kind_int "1024"
    ∷ plain "scan.share-threshold" kind_int "32"
    ∷ plain "scan.queue-limit" kind_int "65536"
    ∷ plain "scan.rate-limit" kind_float "0"
    ∷ plain "scan.rate-limit-burst" kind_int "0"
    ∷ plain "scan.max-tracked-inodes" kind_int "2000000"
    ∷ needing "scan.one-filesystem" kind_tristate "false" cap_inode
    ∷ needing "scan.dedup-hardlinks" kind_tristate "false" cap_inode
    ∷ plain "scan.publish-partial" kind_bool "false"
    ∷ plain "scan.stale-after" kind_duration "0"
    ∷ plain "scan.nice" kind_int "19"
    ∷ plain "scan.io-priority" kind_string "idle"
    ∷ plain "collector.file-counts" kind_bool "false"
    ∷ needing "collector.disk-usage" kind_tristate "auto" cap_alloc_bytes
    ∷ plain "collector.growth" kind_bool "true"
    ∷ needing "collector.filesystem" kind_tristate "auto" cap_fs_bytes
    ∷ plain "collector.self" kind_bool "true"
    ∷ plain "collector.scan-histogram" kind_bool "false"
    ∷ plain "web.listen-address" kind_strings ":9115"
    ∷ plain "web.config.file" kind_string ""
    ∷ plain "web.systemd-socket" kind_bool "false"
    ∷ plain "web.telemetry-path" kind_string "/metrics"
    ∷ plain "web.enable-lifecycle" kind_bool "false"
    ∷ plain "web.ready-requires-scan" kind_bool "true"
    ∷ plain "log.scan-heartbeat" kind_duration "30s"
    ∷ plain "log.heartbeat-interval" kind_duration "30s"
    ∷ command_line "config.file" kind_string ""
    ∷ []

-- What a setting holds; a float64 by its bits, a time.Duration in nanoseconds.
pub data Value : Type 0 where
  text : Str → Value
  texts : List Str → Value
  int : ℕ → Value
  float : ℕ → Value
  bool : Bool → Value
  duration : ℕ → Value
  tristate : Tristate → Value

-- `strings.Split(s, ",")`
abbrev pub add_first : ℕ → List Str → List Str
add_first c [] = (c ∷ []) ∷ []
add_first c (part ∷ parts) = (c ∷ part) ∷ parts

unfoldable pub split_commas : Str → List Str
split_commas [] = [] ∷ []
split_commas (c ∷ s) =
    let rest = split_commas s in if nat_beq c 44 then [] ∷ rest else add_first c rest

-- The loop of the case `kindStrings`.
unfoldable pub trimmed_parts : List Str → List Str
trimmed_parts [] = []
trimmed_parts (part ∷ parts) =
    let rest = trimmed_parts parts in
    if is_empty (trim_space part) then rest else trim_space part ∷ rest

-- `strconv.ParseBool`
unfoldable pub parse_bool : Str → Option Bool
parse_bool s =
    if contains s (str "1" ∷ str "t" ∷ str "T" ∷ str "TRUE" ∷ str "true" ∷ str "True" ∷ [])
    then some true
    else if contains s (str "0" ∷ str "f" ∷ str "F" ∷ str "FALSE" ∷ str "false" ∷ str "False" ∷ [])
    then some false
    else none

-- `strconv.Atoi`, with an int of 64 bits in two's complement.
unfoldable pub digits : Str → ℕ → Option ℕ
digits [] n = some n
digits (c ∷ s) n =
    let rest = digits s (n * 10 + (c - 48)) in if leb 48 c && leb c 57 then rest else none

abbrev pub unsigned : Str → Option ℕ
unsigned [] = none
unsigned (c ∷ s) = digits (c ∷ s) 0

abbrev pub non_negative : Str → Option ℕ
non_negative s = Option.bind (unsigned s) (λ n. if ltb n (2 ^ 63) then some n else none)

abbrev pub negated : Str → Option ℕ
negated s =
    Option.bind (unsigned s)
      (λ n. if nat_beq n 0 then some 0 else if leb n (2 ^ 63) then some (2 ^ 64 - n) else none)

unfoldable pub atoi : Str → Option ℕ
atoi [] = none
atoi (c ∷ s) =
    if nat_beq c 43
    then non_negative s
    else if nat_beq c 45
    then negated s
    else non_negative (c ∷ s)

-- `strconv.ParseFloat` and `time.ParseDuration`, whose results are only handed on.
pub record Parsers : Type 0 where
  pub parse_float : Str → Option ℕ
  pub parse_duration : Str → Option ℕ

-- `set`, on the trimmed text; `none` is an error.
abbrev pub set_trimmed : Parsers → Kind → Str → Option Value
set_trimmed parsers kind_string raw = some (text raw)
set_trimmed parsers kind_strings raw = some (texts (trimmed_parts (split_commas raw)))
set_trimmed parsers kind_int raw = Option.map int (atoi raw)
set_trimmed parsers kind_float raw = Option.map float (parsers.parse_float raw)
set_trimmed parsers kind_bool raw = Option.map bool (parse_bool raw)
set_trimmed parsers kind_duration raw = Option.map duration (parsers.parse_duration raw)
set_trimmed parsers kind_tristate raw = Option.map tristate (set_tristate raw)

unfoldable pub set : Parsers → Kind → Str → Option Value
set parsers kind raw = set_trimmed parsers kind (trim_space raw)
