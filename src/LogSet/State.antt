-- ===== src/LogSet/State.antt =====
-- The state of a reconciliation of a LogSet (pkg/controllers/logset/controller.go), and the calls that
-- it makes. The API server, the clock and the utility package are parameters.
use matrixone_operator.Base.{ℕ, String, Bool, Option, none, some, List, [], ◌∷◌}
use matrixone_operator.Base.Run.{
  not_found, conflict, refused, api, Answer, ok, err, done, fail, M, pure, throw, answer,
}
use matrixone_operator.Api.LogSet.{LogSet}
use matrixone_operator.Api.Pod.{Pod}
use matrixone_operator.Common.Failover.{FailoverStatus}
use matrixone_operator.Bucket.{BucketCall, BucketServer, Calls}

-- The kruise stateful set. `template` stands for its pod template.
pub record StatefulSet : Type 0 where
  pub replicas : ℕ
  pub reserve_ordinals : List ℕ
  pub retention : Option String
  pub template : String
  pub updated_ready_replicas : ℕ

-- The three objects that Finalize waits for.
pub data Owned : Type 0 where
  headless_service stateful_set discovery_service : Owned

-- A pod that a failover left behind, and whether it has the finalizer of failovers.
pub record Orphan : Type 0 where
  pub orphan_name : String
  pub is_kept : Bool

pub data LogCall : Type 0 where
  read_discovery read_sts list_pods sync_config sync_volume sync_metric : LogCall
  dry_run_sts patch_sts update_sts : StatefulSet → LogCall
  write_gossip : List String → LogCall
  orphan_pod : String → LogCall
  delete_owned exists_owned : Owned → LogCall
  list_orphans : LogCall
  free_orphan delete_orphan : Orphan → LogCall
  of_bucket : BucketCall → LogCall

-- `ready` is the status of the condition Ready.
pub record LogSetState : Type 0 where
  pub log_set : LogSet
  pub status : FailoverStatus
  pub ready : Bool
  pub calls : List LogCall

pub record LogSetServer : Type 0 where
  pub now : List LogCall → ℕ
  -- util.IsPodAvailable, with 15 seconds
  pub is_available : Pod → Bool
  -- util.PodOrdinal and util.Upsert
  pub pod_ordinal : String → Option ℕ
  pub upsert : List ℕ → ℕ → List ℕ
  pub discovery : List LogCall → Answer (Unit {0})
  pub sts : List LogCall → Answer StatefulSet
  pub pods : List LogCall → Answer (List Pod)
  -- the configuration map, written, and the template that goes with it
  pub config_synced : List LogCall → Answer (Unit {0})
  pub template_of : LogSet → String → Option String
  -- an update that is not kept, which fills in defaults
  pub dry_run : List LogCall → StatefulSet → Answer StatefulSet
  pub volume_synced : List LogCall → Answer (Unit {0})
  pub metric_synced : List LogCall → Answer (Unit {0})
  pub sts_patched : List LogCall → StatefulSet → Answer (Unit {0})
  pub sts_updated : List LogCall → StatefulSet → Answer (Unit {0})
  pub gossip_written : List LogCall → List String → Answer (Unit {0})
  pub pod_orphaned : List LogCall → String → Answer (Unit {0})
  pub owned_deleted : List LogCall → Owned → Answer (Unit {0})
  pub owned_exists : List LogCall → Owned → Answer Bool
  pub orphans : List LogCall → Answer (List Orphan)
  pub orphan_freed : List LogCall → Orphan → Answer (Unit {0})
  pub orphan_deleted : List LogCall → Orphan → Answer (Unit {0})
  -- the server that a run on the bucket meets
  pub bucket : List LogCall → BucketServer

abbrev pub tell : LogCall → LogSetState → LogSetState
tell c s = record s { calls = c ∷ s.calls }

abbrev pub call {ℓ} : {A : Type ℓ} → LogCall → (List LogCall → Answer A) → M LogSetState A
call c f s = answer (f s.calls) (tell c s)

-- util.IsFound: an object that is missing is no error.
abbrev pub found_answer {ℓ} : {A : Type ℓ} → Answer A → M LogSetState (Option A)
found_answer (ok a) = pure (some a)
found_answer (err not_found) = pure none
found_answer (err conflict) = throw (api conflict)
found_answer (err refused) = throw (api refused)

abbrev pub found {ℓ} : {A : Type ℓ} → LogCall → (List LogCall → Answer A) → M LogSetState (Option A)
found c f s = found_answer (f s.calls) (tell c s)

-- A run on the bucket is part of this run.
unfoldable pub wrap : Calls → List LogCall → List LogCall
wrap [] cs = cs
wrap (b ∷ bs) cs = of_bucket b ∷ wrap bs cs

unfoldable pub on_bucket {ℓ} :
    {A : Type ℓ} → LogSetServer → (BucketServer → M Calls A) → M LogSetState A
on_bucket k m s = elim (m (k.bucket s.calls) []) [
  | done a bs ↦ done a (record s { calls = wrap bs s.calls })
  | fail e bs ↦ fail e (record s { calls = wrap bs s.calls })
]
