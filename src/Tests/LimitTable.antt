-- ===== src/Tests/LimitTable.antt =====
-- Limits, quotas and overrides on concrete inputs.
use kody_celld.Prelude.{refl, Option, none, some, Text, codes}
use kody_celld.Integers.{ℤ, pos}
use kody_celld.Limits.Defs.{LimitEnv, Limits, default_limits, kody_run_log_limit}
use kody_celld.Limits.Env.{integer, read, limits_from_env}
use kody_celld.Limits.Bounds.{InBounds, limits_from_env-InBounds}

-- One variable is set, and reads as 7.
abbrev env : LimitEnv
env kody_run_log_limit = some (codes "7")
env _ = none

abbrev number : Text → Option ℤ
number t = some (pos 7)

abbrev limits : Limits
limits = record default_limits { run_log_limit = 7 }

limits_from_env-InBounds_example : InBounds limits
unfolding limits_from_env read integer
limits_from_env-InBounds_example = limits_from_env-InBounds (λ t. t) number env limits refl
