-- ===== src/Api/Pod.antt =====
-- The Pod of the Kubernetes API (k8s.io/api/core/v1), with the fields that the operator uses. Times
-- are seconds.
use Prim.Native.Nat.{ℕ}
use Prim.Native.String.{String}
use mathlib.Core.Bool.{Bool}
use matrixone_operator.Base.Map.{Map}

-- `status.phase`; `unset` is the empty string.
pub data PodPhase : Type 0 where
  unset pending running succeeded failed unknown : PodPhase

pub record Pod : Type 0 where
  pub name : String
  pub labels : Map
  pub annotations : Map
  pub node_name : String
  pub phase : PodPhase
  -- whether the condition Ready holds
  pub is_ready : Bool
  pub created : ℕ
  -- whether a deletion timestamp is set
  pub is_deleted : Bool
