-- ===== src/Config/Registry/Passes.antt =====
-- What each pass of `Resolve` (internal/config/registry.go) makes of one setting.
use directory_size_exporter.Base.{
  ◌≡◌, refl, sym, inl, inr, Bool-cases, Option, none, some, Option-cases, Sum-cases, List, [], ◌∷◌,
  Str, str_eq, str_beq_iff, ◌==◌, arith, if◌then◌else◌, ap,
}
use mathlib.Core.Option
use directory_size_exporter.Base.Dict.{lookup, insert, lookup-insert}
use directory_size_exporter.Config.Fields.{Parsers, set}
use directory_size_exporter.Config.Registry.{
  Setting, source_flag, source_yaml, source_env, Registry, Node, env_name, set_from_yaml,
  name_of_key, write_yaml, apply_keys, env_round, apply_env, mark_flags,
}

-- The last of the entries that is about the setting of that name.
unfoldable pub yaml_for : List (Str × Str) → Str → List (Str × Node) → Option Node
yaml_for aliases name [] = none
yaml_for aliases name ((key, node) ∷ entries) =
    let rest = yaml_for aliases name entries in
    elim rest [
      | some later ↦ some later
      | none ↦ if Option.get_or (lookup key aliases) key == name then some node else none
    ]

-- What the YAML file makes of a setting; `none` is an error.
unfoldable pub with_yaml : Parsers → Option Node → Setting → Option Setting
with_yaml parsers none s = some s
with_yaml parsers (some node) s =
    if s.set_by_flag
    then some s
    else Option.map (λ v. record s { value = v; source = source_yaml })
        (set_from_yaml parsers s.field.kind node)

-- What the environment makes of a setting.
unfoldable pub with_env : Parsers → Option Str → Setting → Option Setting
with_env parsers none s = some s
with_env parsers (some raw) s =
    if s.set_by_flag
    then some s
    else Option.map (λ v. record s { value = v; source = source_env })
        (set parsers s.field.kind raw)

pub lookup-mark_flags :
    (parsers : Parsers) (fields : List (Str × Setting)) (name : Str)
    → lookup name (mark_flags parsers fields)
      ≡ Option.map
          (λ s. if s.set_by_flag then record s { source = source_flag } else s)
          (lookup name fields)
unfolding lookup mark_flags
lookup-mark_flags parsers [] name = refl
lookup-mark_flags parsers ((n, s) ∷ fields) name =
    ground (arith, lookup-mark_flags parsers fields name)

module _ (parsers : Parsers) (env : Str → Option Str) where
  env_round-with_env :
      (name : Str) (s s' : Setting)
      → env_round parsers env name s ≡ inl s'
      → with_env parsers (env (env_name name)) s ≡ some s'
  unfolding with_env
  env_round-with_env name s s' h =
      ground (arith, h, Bool-cases s.set_by_flag, Option-cases (env (env_name name)))

  pub lookup-apply_env :
      (fields fields' : List (Str × Setting)) (name : Str) (s : Setting)
      → apply_env parsers env fields ≡ inl fields'
      → lookup name fields ≡ some s
      → lookup name fields' ≡ with_env parsers (env (env_name name)) s
  unfolding lookup apply_env
  lookup-apply_env [] fields' name s h e = absurd (ground (arith, e))
  lookup-apply_env ((n, t) ∷ fields) fields' name s h e =
      elim (Sum-cases (env_round parsers env n t)) [
        | inr (err, failed) ↦ absurd (ground (arith, h, failed))
        | inl (t', done) ↦ elim (Sum-cases (apply_env parsers env fields)) [
          | inr (err, failed) ↦ absurd (ground (arith, h, done, failed))
          | inl (rest, others) ↦
              let same : (n, t') ∷ rest ≡ fields' = ground (arith, h, done, others) in
              rw (← same) (
                ground (
                  arith,
                  e,
                  str_beq_iff n name,
                  env_round-with_env n t t' done,
                  lookup-apply_env fields rest name s others,
                ))
        ]
      ]

module _ (parsers : Parsers) where
  -- One key of the file.
  lookup-write_yaml :
      (key other : Str) (node : Node) (t : Setting) (r r' : Registry) (name : Str) (s : Setting)
      → write_yaml parsers key other node t r ≡ inl r'
      → lookup other r.fields ≡ some t
      → lookup name r.fields ≡ some s
      → (s' : Setting) × (lookup name r'.fields ≡ some s')
        × (with_yaml parsers (if other == name then some node else none) s ≡ some s')
        × (r'.aliases ≡ r.aliases)
  unfolding with_yaml
  lookup-write_yaml key other node t r r' name s h found e = elim (Bool-cases t.field.no_yaml) [
    | inl closed ↦ absurd (ground (arith, h, closed))
    | inr allowed ↦ elim (Bool-cases t.set_by_flag) [
      | inl flag ↦
          let same : r ≡ r' = ground (arith, h, allowed, flag) in
          (
            s,
            ground (arith, e, same),
            ground (arith, found, e, flag, str_beq_iff other name),
            ground (arith, same),
          )
      | inr free ↦ elim (Option-cases (set_from_yaml parsers t.field.kind node)) [
        | inl bad ↦ absurd (ground (arith, h, allowed, free, bad))
        | inr (v, good) ↦
            let new : Setting = record t { value = v; source = source_yaml } in
            let same : record r { fields = insert other new r.fields } ≡ r' =
              ground (arith, h, allowed, free, good) in
            (
              if other == name then new else s,
              ground (
                arith,
                e,
                ap (λ q. lookup name q.fields) same,
                lookup-insert other name new r.fields,
              ),
              ground (arith, e, found, free, good, str_beq_iff other name),
              ap (λ q. q.aliases) (sym same),
            )
      ]
    ]
  ]

  -- Two writes of one setting: the later one decides.
  with_yaml_twice :
      (first later : Option Node) (s s1 s2 : Setting)
      → with_yaml parsers first s ≡ some s1
      → with_yaml parsers later s1 ≡ some s2
      → with_yaml parsers (elim later [ some node ↦ some node | none ↦ first ]) s ≡ some s2
  unfolding with_yaml
  with_yaml_twice first none s s1 s2 h g = ground (arith, h, g)
  with_yaml_twice none (some node) s s1 s2 h g = ground (arith, h, g)
  with_yaml_twice (some node1) (some node) s s1 s2 h g = ground (
    arith,
    h,
    g,
    Bool-cases s.set_by_flag,
    Option-cases (set_from_yaml parsers s.field.kind node1),
  )

  pub lookup-apply_keys :
      (entries : List (Str × Node)) (r r' : Registry) (name : Str) (s : Setting)
      → apply_keys parsers entries r ≡ inl r'
      → lookup name r.fields ≡ some s
      → (s' : Setting) × (lookup name r'.fields ≡ some s')
        × (with_yaml parsers (yaml_for r.aliases name entries) s ≡ some s')
  unfolding apply_keys yaml_for with_yaml
  lookup-apply_keys [] r r' name s h e = (s, ground (arith, h, e), refl)
  lookup-apply_keys ((key, node) ∷ entries) r r' name s h e =
      let other = name_of_key parsers r key in
      elim (Option-cases (lookup other r.fields)) [
        | inl unknown ↦ absurd (ground (arith, h, unknown))
        | inr (t, found) ↦ elim (Sum-cases (write_yaml parsers key other node t r)) [
          | inr (err, failed) ↦ absurd (ground (arith, h, found, failed))
          | inl (r1, done) ↦
              let (s1, e1, w1, same) =
                lookup-write_yaml key other node t r r1 name s done found e in
              let (s2, e2, w2) =
                lookup-apply_keys entries r1 r' name s1 (ground (arith, h, found, done)) e1 in
              (
                s2,
                e2,
                with_yaml_twice (if other == name then some node else none)
                    (yaml_for r.aliases name entries) s s1 s2 w1 (rw (← same) w2),
              )
        ]
      ]
