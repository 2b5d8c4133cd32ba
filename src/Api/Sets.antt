-- ===== src/Api/Sets.antt =====
-- The set objects that own pods: api/core/v1alpha1/cnset_types.go, and the pools of cnpool_types.go.
use Prim.Native.Nat.{ℕ}
use Prim.Native.String.{String}
use mathlib.Core.Bool.{Bool, false}
use mathlib.Core.Option.{Option, none, some}
use matrixone_operator.Base.Map.{Map}

-- Durations are seconds.
pub record ScalingConfig : Type 0 where
  pub store_drain_enabled : Option Bool
  pub store_drain_timeout : Option ℕ
  pub min_delay_seconds : Option ℕ

or_false : Option Bool → Bool
or_false none = false
or_false (some b) = b

unfoldable pub get_store_drain_enabled : ScalingConfig → Bool
unfolding or_false
get_store_drain_enabled c = or_false c.store_drain_enabled

or_default : ℕ → Option ℕ → ℕ
or_default d none = d
or_default d (some n) = n

unfoldable pub get_store_drain_timeout : ScalingConfig → ℕ
unfolding or_default
get_store_drain_timeout c = or_default 0 c.store_drain_timeout

abbrev pub default_min_delay_seconds : ℕ
default_min_delay_seconds = 15

unfoldable pub get_min_delay_duration : ScalingConfig → ℕ
unfolding or_default
get_min_delay_duration c = or_default default_min_delay_seconds c.min_delay_seconds

pub record CnSet : Type 0 where
  pub name : String
  -- the LogSet that the set depends on
  pub log_set : Option String
  pub scaling_config : ScalingConfig
  pub pause_update : Bool

pub record Pool : Type 0 where
  pub name : String
  pub pod_labels : Map
