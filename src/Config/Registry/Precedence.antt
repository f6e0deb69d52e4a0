-- ===== src/Config/Registry/Precedence.antt =====
-- The order of precedence of `Resolve` (internal/config/registry.go).
use directory_size_exporter.Base.{
  ◌≡◌, ◌≢◌, refl, sym, ◌⊎◌, inl, inr, Bool-cases, Option, none, some, Option-cases, Sum-cases, List,
  [], Str, str, str_eq, str_beq_iff, arith, if◌then◌else◌, ◌∙◌, ap,
}
use mathlib.Core.Option
use directory_size_exporter.Base.Dict.{lookup, lookup-insert}
use directory_size_exporter.Targets.Paths.{is_empty}
use directory_size_exporter.Config.Fields.{text, Parsers, set}
use directory_size_exporter.Config.Registry.{
  Setting, source_flag, source_yaml, source_env, Registry, RegistryError, Node, Entries, flatten,
  sort_by_key, env_name, set_from_yaml, apply_yaml, apply_env, mark_flags, settle_path, config_file,
  env_path, finish_env, resolve,
}
use directory_size_exporter.Config.Registry.Passes.{
  yaml_for, with_yaml, with_env, lookup-mark_flags, lookup-apply_env, lookup-apply_keys,
}

-- The setting that the four sources make: the flag, else the environment, else the file, else the
-- default; `none` is an error.
unfoldable pub effective : Parsers → Option Str → Option Node → Setting → Option Setting
effective parsers env node s =
    if s.set_by_flag then some (record s { source = source_flag }) else elim env [
      | some raw ↦
          Option.map (λ v. record s { value = v; source = source_env })
            (set parsers s.field.kind raw)
      | none ↦ elim node [
        | some n ↦
            Option.map (λ v. record s { value = v; source = source_yaml })
              (set_from_yaml parsers s.field.kind n)
        | none ↦ some s
      ]
    ]

-- What the file at a path says.
abbrev pub entries_at : (Str → Option Entries) → Str → List (Str × Node)
entries_at read_file path =
    if is_empty path
    then []
    else elim (read_file path) [ none ↦ [] | some document ↦ sort_by_key (flatten [] document []) ]

module _ (parsers : Parsers) (env : Str → Option Str) (read_file : Str → Option Entries) where
  -- The path of the file: of the command line, else of the environment.
  abbrev pub path_of : Str → Str
  path_of config_path = Option.get_or (env_path parsers env config_path) config_path

  lookup-settle_path :
      (path : Option Str) (fields : List (Str × Setting)) (name : Str)
      → name ≢ config_file parsers
      → lookup name (settle_path parsers path fields) ≡ lookup name fields
  lookup-settle_path none fields name other = refl
  lookup-settle_path (some path) fields name other =
      elim (Option-cases (lookup (config_file parsers) fields)) [
        | inl gone ↦ ground (arith, gone)
        | inr (s, found) ↦ ground (
          arith,
          found,
          other,
          str_beq_iff (config_file parsers) name,
          lookup-insert (config_file parsers) name
              (record s { value = text path; source = source_env }) fields,
        )
      ]

  -- The file and the environment together.
  with_both :
      (raw : Option Str) (node : Option Node) (s s1 : Setting)
      → with_yaml parsers node (if s.set_by_flag then record s { source = source_flag } else s)
        ≡ some s1
      → with_env parsers raw s1 ≡ effective parsers raw node s
  unfolding with_yaml with_env effective
  with_both none none s s1 h = ground (arith, h)
  with_both none (some node) s s1 h = ground (arith, h)
  with_both (some raw) none s s1 h = ground (arith, h)
  with_both (some raw) (some node) s s1 h = ground (arith, h)

  after_file :
      (path name : Str) (start r1 : Registry) (s : Setting)
      → (if is_empty path then inl start else apply_yaml parsers read_file path start) ≡ inl r1
      → lookup name start.fields ≡ some s
      → (s1 : Setting) × (lookup name r1.fields ≡ some s1)
        × (with_yaml parsers (yaml_for start.aliases name (entries_at read_file path)) s ≡ some s1)
  unfolding apply_yaml yaml_for with_yaml
  after_file path name start r1 s h e = elim (Bool-cases (is_empty path)) [
    | inl empty ↦
        let same : start ≡ r1 = ground (arith, h, empty) in
        (s, ap (λ q. lookup name q.fields) (sym same) ∙ e, rw empty refl)
    | inr some_path ↦ elim (Option-cases (read_file path)) [
      | inl unreadable ↦ absurd (ground (arith, h, some_path, unreadable))
      | inr (document, read) ↦
          let entries = sort_by_key (flatten [] document []) in
          let (s1, found, written) =
            lookup-apply_keys parsers entries start r1 name s (ground (arith, h, some_path, read))
              e in
          (s1, found, rw (some_path, read) written)
    ]
  ]

  after_env :
      (x : Registry ⊎ RegistryError) (r' : Registry)
      → finish_env parsers env x ≡ inl r'
      → (r1 : Registry) × (x ≡ inl r1) × (apply_env parsers env r1.fields ≡ inl r'.fields)
  after_env (inr err) r' h = absurd (ground (arith, h))
  after_env (inl r1) r' h = elim (Sum-cases (apply_env parsers env r1.fields)) [
    | inr (err, failed) ↦ absurd (ground (arith, h, failed))
    | inl (fields, done) ↦ (r1, refl, ground (arith, h, done))
  ]

  -- When `Resolve` succeeds, every setting but `config.file` is what its flag made it, if the flag was
  -- given; else what its environment variable says, if it is there; else what the last key of the file
  -- that is about it says; else its default; and its source says which.
  pub resolve_precedence :
      (config_path name : Str) (r r' : Registry) (s : Setting)
      → resolve parsers env read_file config_path r ≡ inl r'
      → lookup name r.fields ≡ some s
      → name ≢ str "config.file"
      → lookup name r'.fields
        ≡ effective parsers
            (env (env_name name))
            (yaml_for r.aliases name (entries_at read_file (path_of config_path)))
            s
  unfolding resolve
  resolve_precedence config_path name r r' s h e other =
      let path = path_of config_path in
      let start : Registry = record r {
        fields =
            settle_path parsers (env_path parsers env config_path) (mark_flags parsers r.fields);
      } in
      let marked : Setting = if s.set_by_flag then record s { source = source_flag } else s in
      let there : lookup name start.fields ≡ some marked =
        lookup-settle_path (env_path parsers env config_path) (mark_flags parsers r.fields) name
          other
        ∙ lookup-mark_flags parsers r.fields name
        ∙ ap (Option.map (λ t. if t.set_by_flag then record t { source = source_flag } else t)) e in
      let (r1, filed, done) =
        after_env (if is_empty path then inl start else apply_yaml parsers read_file path start) r'
          h in
      let (s1, found, written) = after_file path name start r1 marked filed there in
      lookup-apply_env parsers env r1.fields r'.fields name s1 done found
      ∙ with_both (env (env_name name)) (yaml_for r.aliases name (entries_at read_file path)) s s1
          written
