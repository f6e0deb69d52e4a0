-- ===== src/Config/Arguments.antt =====
-- `NormalizeArgs` (internal/config/registry.go): Boolean flags with a value are rewritten to the form
-- that the parser of the command line takes.
use directory_size_exporter.Base.{
  ℕ, ◌≡◌, ◌⊎◌, refl, Bool, true, false, Bool-cases, inl, inr, ◌&&◌, Option, none, some, List, [],
  ◌∷◌, ◌++◌, Str, str, str_eq, arith, if◌then◌else◌, nat_beq, ap₂, ap,
}
use directory_size_exporter.Base.Dict.{contains}
use directory_size_exporter.Targets.Paths.{has_prefix, trim_space}
use directory_size_exporter.Config.{to_lower}
use directory_size_exporter.Config.Fields.{Kind, kind_bool}

-- `strings.Cut(arg, "=")`; `none` where there is no such sign.
abbrev keep_name : ℕ → Str × Option Str → Str × Option Str
keep_name c (name, value) = (c ∷ name, value)

unfoldable pub cut : Str → Str × Option Str
cut [] = ([], none)
cut (c ∷ s) = let rest = cut s in if nat_beq c 61 then ([], some s) else keep_name c rest

-- `strings.TrimPrefix(name, "--")`
abbrev pub trim_dashes : Str → Str
trim_dashes [] = []
trim_dashes (c ∷ []) = c ∷ []
trim_dashes (c ∷ d ∷ s) = if nat_beq c 45 && nat_beq d 45 then s else c ∷ d ∷ s

abbrev pub is_bool_kind : Option Kind → Bool
is_bool_kind (some kind_bool) = true
is_bool_kind _ = false

-- One round of the loop, for an argument that is a name, a sign `=` and a value.
abbrev pub rewrite_value : Str → Str → Str → Str
rewrite_value arg name value =
    let word = to_lower (trim_space value) in
    if contains word (str "true" ∷ str "1" ∷ str "yes" ∷ str "on" ∷ [])
    then name
    else if contains word (str "false" ∷ str "0" ∷ str "no" ∷ str "off" ∷ [])
    then str "--no-" ++ trim_dashes name
    else arg

module _ (kind_of : Str → Option Kind) where
  abbrev pub rewrite : Str → Str × Option Str → Str
  rewrite arg (name, none) = arg
  rewrite arg (name, some value) =
      if has_prefix name (str "--") && is_bool_kind (kind_of (trim_dashes name))
      then rewrite_value arg name value
      else arg

  unfoldable pub normalize_args : List Str → List Str
  normalize_args [] = []
  normalize_args (arg ∷ args) = rewrite arg (cut arg) ∷ normalize_args args

  -- The name has no sign `=`, and so is not cut again.
  cut_name : (s : Str) → cut (cut s).0 ≡ ((cut s).0, none)
  unfolding cut
  cut_name [] = refl
  cut_name (c ∷ s) = elim (Bool-cases (nat_beq c 61)) [
    | inl sign ↦ ground (arith, sign)
    | inr other ↦ ground (arith, other, cut_name s)
  ]

  cut_trimmed : (s : Str) → cut s ≡ (s, none) → cut (trim_dashes s) ≡ (trim_dashes s, none)
  unfolding cut
  cut_trimmed [] h = h
  cut_trimmed (c ∷ []) h = h
  cut_trimmed (c ∷ d ∷ s) h = ground (arith, h)

  cut_negated : (s : Str) → cut s ≡ (s, none) → cut (str "--no-" ++ s) ≡ (str "--no-" ++ s, none)
  unfolding cut
  cut_negated s h = ground (arith, h)

  rewrite_value-cases :
      (arg name value : Str)
      → cut name ≡ (name, none)
      → (rewrite_value arg name value ≡ arg)
        ⊎ (cut (rewrite_value arg name value) ≡ (rewrite_value arg name value, none))
  rewrite_value-cases arg name value h =
      let word = to_lower (trim_space value) in
      elim (Bool-cases (contains word (str "true" ∷ str "1" ∷ str "yes" ∷ str "on" ∷ []))) [
        | inl on ↦ inr (rw on h)
        | inr neither ↦
            elim (Bool-cases (contains word (str "false" ∷ str "0" ∷ str "no" ∷ str "off" ∷ []))) [
              | inl off ↦
                  inr (rw (neither, off) (cut_negated (trim_dashes name) (cut_trimmed name h)))
              | inr other ↦ inl (rw (neither, other) refl)
            ]
      ]

  -- An argument stays as it is, or what it becomes has no sign `=`.
  rewrite-cases :
      (arg : Str)
      → (rewrite arg (cut arg) ≡ arg)
        ⊎ (cut (rewrite arg (cut arg)) ≡ (rewrite arg (cut arg), none))
  rewrite-cases arg = by_parts (cut arg).0 (cut arg).1 (cut_name arg)
    where
      by_parts :
          (name : Str) (value : Option Str)
          → cut name ≡ (name, none)
          → (rewrite arg (name, value) ≡ arg)
            ⊎ (cut (rewrite arg (name, value)) ≡ (rewrite arg (name, value), none))
      by_parts name none h = inl refl
      by_parts name (some value) h =
          elim (Bool-cases
            (has_prefix name (str "--") && is_bool_kind (kind_of (trim_dashes name)))) [
              | inl flag ↦ rw flag (rewrite_value-cases arg name value h)
              | inr plain ↦ inl (rw plain refl)
            ]

  rewrite_again :
      (arg : Str)
      → rewrite (rewrite arg (cut arg)) (cut (rewrite arg (cut arg))) ≡ rewrite arg (cut arg)
  rewrite_again arg = elim (rewrite-cases arg) [
    | inl same ↦ ap (λ x. rewrite x (cut x)) same
    | inr stays ↦ ap (rewrite (rewrite arg (cut arg))) stays
  ]

  -- Normalising the arguments twice is normalising them once.
  pub normalize_args_idempotent :
      (args : List Str) → normalize_args (normalize_args args) ≡ normalize_args args
  unfolding normalize_args
  normalize_args_idempotent [] = refl
  normalize_args_idempotent (arg ∷ args) =
      ap₂ (◌∷◌) (rewrite_again arg) (normalize_args_idempotent args)
