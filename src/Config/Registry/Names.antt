-- ===== src/Config/Registry/Names.antt =====
-- The table of `NewRegistry` (internal/config/registry.go): what its names stand for.
use directory_size_exporter.Base.{
  ◌≡◌, refl, sym, true, false, Bool-cases, inl, inr, Option, none, some, List, [], ◌∷◌, map, Str,
  str_eq, str_beq, str_beq_iff, ◌==◌, arith, if◌then◌else◌, ap, ◌∙◌, All, every_sound,
}
use directory_size_exporter.Base.Dict.{
  is_none, lookup, has, keys, contains, Distinct, is_distinct, is_distinct_sound, contains-keys,
  All-contains,
}
use directory_size_exporter.Targets.Paths.{is_empty}
use directory_size_exporter.Config.{tri_auto}
use directory_size_exporter.Config.Fields.{
  Kind, kind_string, kind_strings, kind_int, kind_float, kind_bool, kind_duration, kind_tristate,
  Field, registry_fields, Value, text, texts, int, float, bool, duration, tristate,
}
use directory_size_exporter.Config.Registry.{Setting, source_default, Registry, env_name}

-- The zero value of a field of `Config`.
abbrev pub zero_value : Kind → Value
zero_value kind_string = text []
zero_value kind_strings = texts []
zero_value kind_int = int 0
zero_value kind_float = float 0
zero_value kind_bool = bool false
zero_value kind_duration = duration 0
zero_value kind_tristate = tristate tri_auto

abbrev pub settings_of : List Field → List (Str × Setting)
settings_of [] = []
settings_of (f ∷ fs) =
    (
      f.name,
      record { field = f; value = zero_value f.kind; set_by_flag = false; source = source_default },
    )
    ∷ settings_of fs

abbrev pub aliases_of : List Field → List (Str × Str)
aliases_of [] = []
aliases_of (f ∷ fs) =
    let rest = aliases_of fs in
    if is_empty f.yaml_alias then rest else (f.yaml_alias, f.name) ∷ rest

-- `NewRegistry`
unfoldable pub new_registry : Registry
new_registry = record { fields = settings_of registry_fields; aliases = aliases_of registry_fields }

contains-map :
    (f : Str → Str) (l : List Str) (m : Str) → contains m l ≡ true → contains (f m) (map f l) ≡ true
unfolding contains
contains-map f [] m h = h
contains-map f (k ∷ l) m h = elim (Bool-cases (k == m)) [
  | inl same ↦ ground (arith, ap f ((str_beq_iff k m).0 same), str_beq_iff (f k) (f m))
  | inr other ↦ ground (arith, h, other, contains-map f l m)
]

Distinct-map :
    (f : Str → Str) (l : List Str) (m n : Str)
    → Distinct (map f l)
    → contains m l ≡ true
    → contains n l ≡ true
    → f m ≡ f n
    → m ≡ n
unfolding contains
Distinct-map f [] m n d hm hn e = absurd (ground (arith, hm))
Distinct-map f (k ∷ l) m n d hm hn e = elim (Bool-cases (k == m)) [
  | inl at_m ↦ elim (Bool-cases (k == n)) [
    | inl at_n ↦ sym ((str_beq_iff k m).0 at_m) ∙ (str_beq_iff k n).0 at_n
    | inr past_n ↦
        let clash : contains (f k) (map f l) ≡ true =
          rw (ap f ((str_beq_iff k m).0 at_m) ∙ e)
            (contains-map f l n (ground (arith, hn, past_n))) in
        absurd (ground (arith, d.0, clash))
  ]
  | inr past_m ↦ elim (Bool-cases (k == n)) [
    | inl at_n ↦
        let clash : contains (f k) (map f l) ≡ true =
          rw (ap f ((str_beq_iff k n).0 at_n) ∙ sym e)
            (contains-map f l m (ground (arith, hm, past_m))) in
        absurd (ground (arith, d.0, clash))
    | inr past_n ↦
        Distinct-map f l m n d.1 (ground (arith, hm, past_m)) (ground (arith, hn, past_n)) e
  ]
]

env_names_Distinct : Distinct (map env_name (keys (settings_of registry_fields)))
unfolding contains str_beq is_distinct env_name is_empty
env_names_Distinct = is_distinct_sound (map env_name (keys (settings_of registry_fields))) refl

no_aliases :
    All
      (λ k. is_none (lookup k (aliases_of registry_fields)) ≡ true)
      (keys (settings_of registry_fields))
unfolding lookup str_beq is_empty
no_aliases =
    every_sound (λ k. is_none (lookup k (aliases_of registry_fields)))
      (keys (settings_of registry_fields)) refl

is_none-none : {A : Type 0} (o : Option A) → is_none o ≡ true → o ≡ none
is_none-none none h = refl
is_none-none (some a) h = absurd (ground (arith, h))

-- Two settings have different environment variables, and the alias of a setting is the name of no
-- setting.
pub names_are_unambiguous :
    (m n : Str)
    → has m new_registry.fields ≡ true
    → (has n new_registry.fields ≡ true → env_name m ≡ env_name n → m ≡ n)
      × (lookup m new_registry.aliases ≡ none)
unfolding new_registry
names_are_unambiguous m n hm =
    let names = keys (settings_of registry_fields) in
    let listed : contains m names ≡ true = contains-keys m (settings_of registry_fields) ∙ hm in
    (
      λ hn e.
          Distinct-map env_name names m n env_names_Distinct listed
            (contains-keys n (settings_of registry_fields) ∙ hn) e,
      is_none-none (lookup m (aliases_of registry_fields)) (
          All-contains (λ k. is_none (lookup k (aliases_of registry_fields)) ≡ true) names
            no_aliases m listed),
    )
