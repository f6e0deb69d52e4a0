-- ===== src/App/Limit.antt =====
-- `--targets.max` in the running program (internal/targets/resolver.go, cmd/directory-size-exporter/main.go).
use directory_size_exporter.Base.{ℕ, ◌≡◌, Option, str_eq}
use mathlib.Core.Option
use directory_size_exporter.App.{Application, store_of}
use directory_size_exporter.App.Soundness.{pending}
use directory_size_exporter.Targets.Limit.{Within}

-- The limit holds for the store, and for what a reload is about to put there.
pub record IsLimited (max : ℕ) (a : Application) : Type 0 where
  pub limit : a.resolver.opts.max ≡ max
  pub stored : Within max (store_of a).order
  pub coming : Within max (pending a.reload_mu (store_of a))
