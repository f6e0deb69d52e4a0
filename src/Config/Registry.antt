-- ===== src/Config/Registry.antt =====
-- internal/config/registry.go: how the YAML file and the environment change the settings.
pub mod Passes
pub mod Precedence
pub mod Names
use directory_size_exporter.Base.{
  leb, ℕ, ◌+◌, ◌-◌, ◌⊎◌, inl, inr, Bool, true, false, not, ◌&&◌, ◌||◌, Option, none, some, List, [],
  ◌∷◌, ◌++◌, map, Str, str, str_eq, ◌==◌, if◌then◌else◌, nat_beq,
}
use mathlib.Core.Option
use directory_size_exporter.Base.Dict.{lookup, insert, has}
use directory_size_exporter.Targets.Paths.{trim_space, is_empty, str_ltb}
use directory_size_exporter.Config.Fields.{
  Kind, kind_strings, Field, Value, text, texts, Parsers, set,
}

-- `Source`, as far as the registry sets it.
pub data Source : Type 0 where
  source_default source_yaml source_env source_flag : Source

-- What changes of a `field`.
pub record Setting : Type 0 where
  pub field : Field
  pub value : Value
  pub set_by_flag : Bool
  pub source : Source

-- `Registry`: the settings by name, in order, and the other keys of `byName`.
pub record Registry : Type 0 where
  pub fields : List (Str × Setting)
  pub aliases : List (Str × Str)

pub data RegistryError : Type 0 where
  unreadable : Str → RegistryError
  unknown_setting : Str → RegistryError
  only_command_line : Str → RegistryError
  bad_yaml_value : Str → RegistryError
  bad_env_value : Str → RegistryError

-- A YAML value: a mapping, a list or a scalar, the items and the scalar as `fmt.Sprint` prints them.
mutual
  pub data Node : Type 0 where
    mapping : Entries → Node
    sequence : List Str → Node
    null : Node
    scalar : Str → Node

  pub data Entries : Type 0 where
    end : Entries
    entry : Str → Node → Entries → Entries

-- `EnvName`
abbrev pub env_char : ℕ → ℕ
env_char c =
    if nat_beq c 46 || nat_beq c 45 then 95 else if leb 97 c && leb c 122 then c - 32 else c

unfoldable pub env_name : Str → Str
env_name name = str "DIR_EXPORTER_" ++ map env_char name

abbrev pub full_key : Str → Str → Str
full_key prefix key = if is_empty prefix then key else prefix ++ (str "." ++ key)

-- `flatten`, with the entries of a mapping in the order of the list.
unfoldable mutual
  pub flatten : Str → Entries → List (Str × Node) → List (Str × Node)
  flatten prefix end out = out
  flatten prefix (entry key node entries) out =
      flatten prefix entries (flatten_node (full_key prefix key) node out)

  pub flatten_node : Str → Node → List (Str × Node) → List (Str × Node)
  flatten_node full (mapping entries) out = flatten full entries out
  flatten_node full (sequence items) out = insert full (sequence items) out
  flatten_node full null out = insert full null out
  flatten_node full (scalar s) out = insert full (scalar s) out

-- `sort.Strings` on the keys, with their values beside them.
unfoldable pub insert_by_key : Str × Node → List (Str × Node) → List (Str × Node)
insert_by_key e [] = e ∷ []
insert_by_key e (f ∷ es) =
    let rest = insert_by_key e es in if str_ltb f.0 e.0 then f ∷ rest else e ∷ f ∷ es

unfoldable pub sort_by_key : List (Str × Node) → List (Str × Node)
sort_by_key [] = []
sort_by_key (e ∷ es) = insert_by_key e (sort_by_key es)

module _ (parsers : Parsers) where
  -- `setFromYAML`
  unfoldable pub set_from_yaml : Kind → Node → Option Value
  set_from_yaml kind (mapping _) = none
  set_from_yaml kind_strings (sequence items) = some (texts items)
  set_from_yaml _ (sequence items) = none
  set_from_yaml kind null = none
  set_from_yaml kind (scalar s) = set parsers kind s

  -- `byName`: a name, or the alias of one.
  abbrev pub name_of_key : Registry → Str → Str
  name_of_key r key = Option.get_or (lookup key r.aliases) key

  abbrev pub write_yaml : Str → Str → Node → Setting → Registry → Registry ⊎ RegistryError
  write_yaml key name node s r =
      if s.field.no_yaml
      then inr (only_command_line key)
      else if s.set_by_flag
      then inl r
      else elim (set_from_yaml s.field.kind node) [
        | none ↦ inr (bad_yaml_value key)
        | some v ↦ inl (record r {
          fields = insert name (record s { value = v; source = source_yaml }) r.fields;
        })
      ]

  -- The loop of `applyYAML`.
  unfoldable pub apply_keys : List (Str × Node) → Registry → Registry ⊎ RegistryError
  apply_keys [] r = inl r
  apply_keys ((key, node) ∷ entries) r = elim (lookup (name_of_key r key) r.fields) [
    | none ↦ inr (unknown_setting key)
    | some s ↦ elim (write_yaml key (name_of_key r key) node s r) [
      | inr e ↦ inr e
      | inl r' ↦ apply_keys entries r'
    ]
  ]

  -- `applyYAML`; `none` is a file that cannot be read or parsed.
  unfoldable pub apply_yaml : (Str → Option Entries) → Str → Registry → Registry ⊎ RegistryError
  apply_yaml read_file path r = elim (read_file path) [
    | none ↦ inr (unreadable path)
    | some document ↦ apply_keys (sort_by_key (flatten [] document [])) r
  ]

  -- One round of the loop of `applyEnv`.
  abbrev pub env_round : (Str → Option Str) → Str → Setting → Setting ⊎ RegistryError
  env_round env name s = if s.set_by_flag then inl s else elim (env (env_name name)) [
    | none ↦ inl s
    | some raw ↦ elim (set parsers s.field.kind raw) [
      | none ↦ inr (bad_env_value (env_name name))
      | some v ↦ inl (record s { value = v; source = source_env })
    ]
  ]

  unfoldable pub apply_env :
      (Str → Option Str) → List (Str × Setting) → List (Str × Setting) ⊎ RegistryError
  apply_env env [] = inl []
  apply_env env ((name, s) ∷ fields) =
      let rest = apply_env env fields in
      elim (env_round env name s) [
        | inr e ↦ inr e
        | inl s' ↦ elim rest [ inr e ↦ inr e | inl fields' ↦ inl ((name, s') ∷ fields') ]
      ]

  -- The first loop of `Resolve`.
  unfoldable pub mark_flags : List (Str × Setting) → List (Str × Setting)
  mark_flags [] = []
  mark_flags ((name, s) ∷ fields) =
      let rest = mark_flags fields in
      (name, if s.set_by_flag then record s { source = source_flag } else s) ∷ rest

  abbrev pub config_file : Str
  config_file = str "config.file"

  -- The path in the environment, where the command line gives none and it is not blank.
  abbrev pub env_path : (Str → Option Str) → Str → Option Str
  env_path env config_path =
      if is_empty config_path
      then Option.bind (env (env_name config_file))
          (λ raw. if is_empty (trim_space raw) then none else some (trim_space raw))
      else none

  abbrev pub settle_path : Option Str → List (Str × Setting) → List (Str × Setting)
  settle_path none fields = fields
  settle_path (some path) fields = elim (lookup config_file fields) [
    | none ↦ fields
    | some s ↦ insert config_file (record s { value = text path; source = source_env }) fields
  ]

  abbrev pub finish_env : (Str → Option Str) → Registry ⊎ RegistryError → Registry ⊎ RegistryError
  finish_env env (inr e) = inr e
  finish_env env (inl r) = elim (apply_env env r.fields) [
    | inr e ↦ inr e
    | inl fields ↦ inl (record r { fields = fields })
  ]

  -- `Resolve`
  unfoldable pub resolve :
      (Str → Option Str) → (Str → Option Entries) → Str → Registry → Registry ⊎ RegistryError
  resolve env read_file config_path r =
      let from_env = env_path env config_path in
      let path = Option.get_or from_env config_path in
      let start = record r { fields = settle_path from_env (mark_flags r.fields) } in
      finish_env env (if is_empty path then inl start else apply_yaml read_file path start)
