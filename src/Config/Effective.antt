-- ===== src/Config/Effective.antt =====
-- What `Validate` (internal/config/resolve.go) admits.
use directory_size_exporter.Base.{
  ◌<◌, ◌^◌, ◌≡◌, ◌⊎◌, inl, inr, refl, subst, Bool, true, false, not, ◌&&◌, ◌||◌, none, some, List,
  [], ◌∷◌, Str, str_eq, str_beq, arith, is_pos64, is_neg64, le64,
}
use directory_size_exporter.Base.Dict.{contains}
use directory_size_exporter.Targets.Paths.{trim_space, is_empty}
use directory_size_exporter.Fsstat.{Capability, Capabilities, has_cap}
use directory_size_exporter.Config.{
  Tristate, tri_auto, tri_true, tri_false, set_tristate, show_tristate, Settings, ConfigError,
  Resolved, check_settings, check_rest, check_durations, durations, derive_hard_timeout,
  resolve_gate, resolve_gates, gates, with_gates, gated, validate,
}

-- The text that is printed for a tristate is read back as that tristate.
pub set-show_tristate : (t : Tristate) → set_tristate (show_tristate t) ≡ some t
unfolding set_tristate contains str_beq trim_space is_empty
set-show_tristate tri_auto = refl
set-show_tristate tri_true = refl
set-show_tristate tri_false = refl

-- Whether a feature is on: asked for, or left to a platform that has what it needs.
abbrev pub is_on : Tristate → Bool → Bool
is_on tri_auto capable = capable
is_on tri_true capable = true
is_on tri_false capable = false

-- The demand that a platform cannot meet.
abbrev pub is_unmet : Tristate → Bool → Bool
is_unmet tri_true capable = not capable
is_unmet _ capable = false

-- The four features of a resolved configuration.
pub record IsGated (caps : Capabilities) (cfg : Settings) (res : Resolved) : Type 0 where
  pub one_filesystem : res.one_filesystem ≡ is_on cfg.scan_one_filesystem caps.inode
  pub dedup : res.dedup_hardlinks ≡ is_on cfg.scan_dedup_hardlinks caps.inode
  pub disk_usage : res.disk_usage ≡ is_on cfg.collector_disk_usage caps.alloc_bytes
  pub filesystem : res.filesystem ≡ is_on cfg.collector_filesystem caps.fs_bytes
  pub met_inode :
      (is_unmet cfg.scan_one_filesystem caps.inode || is_unmet cfg.scan_dedup_hardlinks caps.inode)
      ≡ false
  pub met_alloc : is_unmet cfg.collector_disk_usage caps.alloc_bytes ≡ false
  pub met_filesystem : is_unmet cfg.collector_filesystem caps.fs_bytes ≡ false

-- The outcomes that the gates should have, and a gate whose demand is not met.
unfoldable pub settled : Capabilities → List (Str × Tristate × Capability) → List Bool
settled caps [] = []
settled caps ((name, value, need) ∷ gs) = is_on value (has_cap need caps) ∷ settled caps gs

unfoldable pub any_unmet : Capabilities → List (Str × Tristate × Capability) → Bool
any_unmet caps [] = false
any_unmet caps ((name, value, need) ∷ gs) = is_unmet value (has_cap need caps) || any_unmet caps gs

resolve_gate_lem :
    (name : Str) (value : Tristate) (need : Capability) (caps : Capabilities)
    (disabled : List (Str × Capability)) (outcome : Bool × List (Str × Capability))
    → resolve_gate name value need caps disabled ≡ inl outcome
    → (outcome.0 ≡ is_on value (has_cap need caps)) × (is_unmet value (has_cap need caps) ≡ false)
unfolding resolve_gate
resolve_gate_lem name tri_auto need caps disabled outcome h = (ground arith, refl)
resolve_gate_lem name tri_true need caps disabled outcome h = (ground arith, ground arith)
resolve_gate_lem name tri_false need caps disabled outcome h = (ground arith, refl)

-- What is claimed of the outcomes of the gates.
abbrev AreSettled : Capabilities → List (Str × Tristate × Capability) → List Bool → Type 0
AreSettled caps gs outcomes = (outcomes ≡ settled caps gs) × (any_unmet caps gs ≡ false)

resolve_gates_step :
    (caps : Capabilities) (name : Str) (value : Tristate) (need : Capability)
    (gs : List (Str × Tristate × Capability)) (disabled : List (Str × Capability))
    (outcomes : List Bool × List (Str × Capability))
    (first : (Bool × List (Str × Capability)) ⊎ ConfigError)
    → resolve_gate name value need caps disabled ≡ first
    → ((d : List (Str × Capability)) (o : List Bool × List (Str × Capability))
        → resolve_gates caps gs d ≡ inl o
        → AreSettled caps gs o.0)
    → resolve_gates caps ((name, value, need) ∷ gs) disabled ≡ inl outcomes
    → AreSettled caps ((name, value, need) ∷ gs) outcomes.0
unfolding resolve_gates settled any_unmet
resolve_gates_step caps name value need gs disabled outcomes (inr e) one ih h =
    absurd (ground (arith, one, h))
resolve_gates_step caps name value need gs disabled outcomes (inl (enabled, next)) one ih h =
    by_rest (resolve_gates caps gs next) refl
  where
    by_rest :
        (rest : (List Bool × List (Str × Capability)) ⊎ ConfigError)
        → resolve_gates caps gs next ≡ rest
        → AreSettled caps ((name, value, need) ∷ gs) outcomes.0
    by_rest (inr e) same = absurd (ground (arith, one, same, h))
    by_rest (inl o) same =
        let (on, met) = resolve_gate_lem name value need caps disabled (enabled, next) one in
        let (all_on, all_met) = ih next o same in
        (ground (arith, one, same, h, on, all_on), ground (arith, met, all_met))

resolve_gates_lem :
    (caps : Capabilities) (gs : List (Str × Tristate × Capability))
    (disabled : List (Str × Capability)) (outcomes : List Bool × List (Str × Capability))
    → resolve_gates caps gs disabled ≡ inl outcomes
    → AreSettled caps gs outcomes.0
unfolding resolve_gates settled any_unmet
resolve_gates_lem caps [] disabled outcomes h = (ground arith, refl)
resolve_gates_lem caps ((name, value, need) ∷ gs) disabled outcomes h =
    resolve_gates_step caps name value need gs disabled outcomes
      (resolve_gate name value need caps disabled) refl (λ d o. resolve_gates_lem caps gs d o) h

resolve_gates-IsGated :
    (caps : Capabilities) (cfg : Settings) (outcomes : List Bool × List (Str × Capability))
    → resolve_gates caps (gates cfg) [] ≡ inl outcomes
    → IsGated caps cfg (with_gates cfg outcomes)
unfolding settled any_unmet gates
resolve_gates-IsGated caps cfg (enabled, disabled) h =
    let (on, met) = resolve_gates_lem caps (gates cfg) [] (enabled, disabled) h in
    record {
      one_filesystem = ground (arith, on);
      dedup = ground (arith, on);
      disk_usage = ground (arith, on);
      filesystem = ground (arith, on);
      met_inode = ground (arith, met);
      met_alloc = ground (arith, met);
      met_filesystem = ground (arith, met);
    }

validate-admitted :
    (linux : Bool) (caps : Capabilities) (cfg : Settings) (res : Resolved)
    → validate linux caps cfg ≡ inl res
    → (check_settings linux cfg ≡ none)
      × ((is_pos64 (derive_hard_timeout cfg).scan_stale_after
            && le64
                (derive_hard_timeout cfg).scan_stale_after
                (derive_hard_timeout cfg).scan_interval)
          ≡ false)
      × (gated (derive_hard_timeout cfg) (resolve_gates caps (gates (derive_hard_timeout cfg)) [])
          ≡ inl res)
unfolding validate
validate-admitted linux caps cfg res h = ground arith

config-with_gates :
    (cfg : Settings) (outcomes : List Bool × List (Str × Capability))
    → (with_gates cfg outcomes).config ≡ cfg
config-with_gates cfg (enabled, disabled) = ground arith

gated-IsGated :
    (caps : Capabilities) (cfg : Settings) (res : Resolved)
    (outcomes : (List Bool × List (Str × Capability)) ⊎ ConfigError)
    → resolve_gates caps (gates cfg) [] ≡ outcomes
    → gated cfg outcomes ≡ inl res
    → IsGated caps cfg res × (res.config ≡ cfg)
gated-IsGated caps cfg res (inr e) same h = absurd (ground (arith, h))
gated-IsGated caps cfg res (inl outcomes) same h =
    subst (λ q. IsGated caps cfg q × (q.config ≡ cfg)) (ground (arith, h))
      (resolve_gates-IsGated caps cfg outcomes same, config-with_gates cfg outcomes)

-- A configuration that `validate` admits has each of the four features on exactly if it was asked
-- for, or left to a platform that has what the feature needs; and no feature was asked for that the
-- platform cannot support.
pub validate-IsGated :
    (linux : Bool) (caps : Capabilities) (cfg : Settings) (res : Resolved)
    → validate linux caps cfg ≡ inl res
    → IsGated caps cfg res
unfolding derive_hard_timeout
validate-IsGated linux caps cfg res h =
    let (checked, fresh, outcome) = validate-admitted linux caps cfg res h in
    let all =
      (gated-IsGated caps (derive_hard_timeout cfg) res
        (resolve_gates caps (gates (derive_hard_timeout cfg)) []) refl outcome).0 in
    record {
      one_filesystem = ground (arith, all.one_filesystem);
      dedup = ground (arith, all.dedup);
      disk_usage = ground (arith, all.disk_usage);
      filesystem = ground (arith, all.filesystem);
      met_inode = ground (arith, all.met_inode);
      met_alloc = ground (arith, all.met_alloc);
      met_filesystem = ground (arith, all.met_filesystem);
    }

durations_lem :
    (cfg : Settings)
    → check_durations (durations cfg) ≡ none
    → is_neg64 cfg.scan_hard_timeout ≡ false
unfolding check_durations durations
durations_lem cfg h = ground (arith, h)

check_rest_lem :
    (linux : Bool) (cfg : Settings)
    → check_rest linux cfg ≡ none
    → (is_pos64 cfg.scan_hard_timeout
        && is_pos64 cfg.scan_timeout
        && le64 cfg.scan_hard_timeout cfg.scan_timeout)
      ≡ false
unfolding check_rest
check_rest_lem linux cfg h = ground (arith, h)

check_settings_lem :
    (linux : Bool) (cfg : Settings)
    → check_settings linux cfg ≡ none
    → (check_durations (durations cfg) ≡ none) × (check_rest linux cfg ≡ none)
unfolding check_settings
check_settings_lem linux cfg h = (ground (arith, h), ground (arith, h))

derived_exceeds :
    (cfg : Settings)
    → is_neg64 cfg.scan_hard_timeout ≡ false
    → (is_pos64 cfg.scan_hard_timeout
        && is_pos64 cfg.scan_timeout
        && le64 cfg.scan_hard_timeout cfg.scan_timeout)
      ≡ false
    → cfg.scan_timeout < 2 ^ 62
    → (is_pos64 (derive_hard_timeout cfg).scan_hard_timeout ≡ true)
      × ((is_pos64 (derive_hard_timeout cfg).scan_timeout
            && le64
                (derive_hard_timeout cfg).scan_hard_timeout
                (derive_hard_timeout cfg).scan_timeout)
          ≡ false)
unfolding derive_hard_timeout
derived_exceeds cfg sign order small = (ground arith, ground arith)

-- A configuration that `validate` admits, and whose scan timeout is below 2 ^ 62 nanoseconds, has a
-- hard timeout that is positive and, where the scan timeout is too, above it; and the age at which a
-- measurement is stale, where it is positive, is above the interval of the scans.
pub validate_timeouts :
    (linux : Bool) (caps : Capabilities) (cfg : Settings) (res : Resolved)
    → validate linux caps cfg ≡ inl res
    → cfg.scan_timeout < 2 ^ 62
    → (is_pos64 res.config.scan_hard_timeout ≡ true)
      × ((is_pos64 res.config.scan_timeout
            && le64 res.config.scan_hard_timeout res.config.scan_timeout)
          ≡ false)
      × ((is_pos64 res.config.scan_stale_after
            && le64 res.config.scan_stale_after res.config.scan_interval)
          ≡ false)
validate_timeouts linux caps cfg res h small =
    let (checked, fresh, outcome) = validate-admitted linux caps cfg res h in
    let same =
      (gated-IsGated caps (derive_hard_timeout cfg) res
        (resolve_gates caps (gates (derive_hard_timeout cfg)) []) refl outcome).1 in
    let (long, rest) = check_settings_lem linux cfg checked in
    let (sets, exceeds) =
      derived_exceeds cfg (durations_lem cfg long) (check_rest_lem linux cfg rest) small in
    rw same (sets, exceeds, fresh)
