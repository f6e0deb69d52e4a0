-- ===== src/Scan/Engine/Defaults.antt =====
-- The effective configuration of internal/scan/engine.go.
use directory_size_exporter.Base.{
  ℕ, ◌+◌, ◌≤◌, ◌<◌, ◌^◌, ◌≡◌, refl, ap, Bool, true, arith, is_pos64, if◌then◌else◌, add64, lt64,
  ◌&&◌, second, ◌*◌,
}
use directory_size_exporter.Scan.Engine.{Config, or_default, with_defaults, tokens_to_take}

unfoldable at_least : Bool → ℕ → ℕ → ℕ
at_least limited least burst = if limited && lt64 burst least then least else burst

-- The limits that the engine relies on are positive.
pub record IsEffective (c : Config) : Type 0 where
  pub concurrency : is_pos64 c.concurrency ≡ true
  pub batch_size : is_pos64 c.batch_size ≡ true
  pub share_threshold : is_pos64 c.share_threshold ≡ true
  pub queue_limit : is_pos64 c.queue_limit ≡ true
  pub max_tracked : is_pos64 c.max_tracked_inodes ≡ true
  pub drain : is_pos64 c.worker_drain_timeout ≡ true
  pub heartbeat : is_pos64 c.heartbeat_every ≡ true

-- For every configuration the defaults make the limits positive.
pub with_defaults-IsEffective : (c : Config) → IsEffective (with_defaults c)
unfolding with_defaults
with_defaults-IsEffective c = record {
  concurrency = ground arith;
  batch_size = ground arith;
  share_threshold = ground arith;
  queue_limit = ground arith;
  max_tracked = ground arith;
  drain = ground arith;
  heartbeat = ground arith;
}

or_default_twice :
    (default x : ℕ)
    → is_pos64 default ≡ true
    → or_default default (or_default default x) ≡ or_default default x
or_default_twice default x pos = ground arith

burst_twice :
    (limited : Bool) (burst least : ℕ)
    → at_least limited least (at_least limited least burst) ≡ at_least limited least burst
unfolding at_least
burst_twice limited burst least = ground arith

-- Applying the defaults to a configuration that they have been applied to changes nothing.
pub with_defaults-idempotent : (c : Config) → with_defaults (with_defaults c) ≡ with_defaults c
unfolding with_defaults at_least
with_defaults-idempotent c =
    rw
      (
        or_default_twice 2 c.concurrency refl,
        or_default_twice 1024 c.batch_size refl,
        or_default_twice 32 c.share_threshold refl,
        or_default_twice 65536 c.queue_limit refl,
        or_default_twice 2000000 c.max_tracked_inodes refl,
        or_default_twice (5 * second) c.worker_drain_timeout refl,
        or_default_twice (30 * second) c.heartbeat_every refl,
      )
      (ap (λ burst. record (with_defaults c) { rate_limit_burst = burst })
        (burst_twice c.rate_limited c.rate_limit_burst (add64 (or_default 1024 c.batch_size) 1)))

-- With a rate limit in effect, and a batch size below 2 ^ 63 - 1, the tokens for a batch of at most
-- the effective batch size, one for each entry and one more, are never clamped to the burst and so
-- never exceed it, which the limiter would refuse.
pub tokens_fit_burst :
    (c : Config) (n : ℕ)
    → c.rate_limited ≡ true
    → (with_defaults c).batch_size + 1 < 2 ^ 63
    → n ≤ (with_defaults c).batch_size
    → (tokens_to_take (with_defaults c).rate_limit_burst (add64 n 1) ≡ n + 1)
      × (n + 1 ≤ (with_defaults c).rate_limit_burst)
unfolding with_defaults tokens_to_take
tokens_fit_burst c n limited small fits = (ground arith, ground arith)
