-- ===== src/Claim/Sync.antt =====
-- Observe and Sync of pkg/controllers/cnclaim/controller.go.
pub mod Lost
use matrixone_operator.Base.{
  ltb, ◌=s◌, if◌then◌else◌, ℕ, ◌+◌, Bool, true, false, Option, none, some,
}
use matrixone_operator.Base.Run.{
  not_found, conflict, refused, api, resync, failed, Answer, ok, err, Run, done, fail, M, ◌>>=◌,
  ◌>>◌, pure, throw,
}
use matrixone_operator.Api.Claim.{ClaimPhase, PodRef, ClaimStatus, Claim, is_lost_phase}
use matrixone_operator.Api.Pod.{Pod, PodPhase}
use matrixone_operator.Claim.State.{
  get_pod, patch_claim, ClaimState, Server, called, send_claim, set_status,
}
use matrixone_operator.Claim.Select.{ensure_ownership}
use matrixone_operator.Claim.Bind.{retry_patch_interval, sync_bind_pod, bind}
use matrixone_operator.Claim.Migrate.{migrate}

abbrev pub wait_cache_timeout : ℕ
wait_cache_timeout = 10

-- The pod has ended or its node is gone.
unfoldable pub has_ended : PodPhase → Bool
has_ended PodPhase.succeeded = true
has_ended PodPhase.unknown = true
has_ended PodPhase.unset = false
has_ended PodPhase.pending = false
has_ended PodPhase.running = false
has_ended PodPhase.failed = false

-- The claim without its pod.
unfoldable pub refer_to_none : Claim → Claim
refer_to_none c = record c { spec = record spec { pod_name = ""; node_name = "" } }
  where
    open c use {spec}

-- `BoundTime != nil && time.Since(BoundTime) < waitCacheTimeout`
unfoldable pub is_just_bound : ℕ → Option ℕ → Bool
is_just_bound now none = false
is_just_bound now (some t) = ltb now (t + wait_cache_timeout)

module _ (k : Server) where
  -- The claim becomes Lost.
  unfoldable pub lose : M ClaimState (Unit {0})
  lose s = set_status (record st { phase = ClaimPhase.lost }) s
    where
      st : ClaimStatus
      st = s.claim.status

  abbrev clear_pod : M ClaimState (Unit {0})
  clear_pod s = send_claim k patch_claim (refer_to_none s.claim) s

  unfoldable pub pod_is_gone : M ClaimState (Unit {0})
  unfolding lose
  pod_is_gone s =
      if is_just_bound (k.now s.calls) s.claim.status.bound_time
      then fail (resync wait_cache_timeout) s
      else (do clear_pod; lose) s

  -- Any error of syncBindPod is logged.
  keep_working : Run ClaimState (Unit {0}) → Run ClaimState (Unit {0})
  keep_working (done a s) = done tt s
  keep_working (fail e s) = fail (resync retry_patch_interval) s

  migrate_if_asked : Option PodRef → M ClaimState (Unit {0})
  migrate_if_asked none = pure tt
  migrate_if_asked (some r) = migrate k

  -- Sync of a pod that is there and has not ended; syncBindPod takes the pod of the update's answer.
  unfoldable pub keep_pod : Pod → M ClaimState (Unit {0})
  unfolding keep_working migrate_if_asked
  keep_pod p = do
    q ← ensure_ownership k p
    λ s. keep_working (sync_bind_pod k q s)
    λ s. migrate_if_asked s.claim.spec.source_pod s

  unfoldable pub sync_pod : Pod → M ClaimState (Unit {0})
  unfolding keep_pod lose
  sync_pod p = elim (has_ended p.phase) [ true ↦ lose | false ↦ keep_pod p ]

  unfoldable pub found_pod : Answer Pod → M ClaimState (Unit {0})
  unfolding pod_is_gone sync_pod
  found_pod (ok p) = sync_pod p
  found_pod (err not_found) = pod_is_gone
  found_pod (err conflict) = throw (api conflict)
  found_pod (err refused) = throw (api refused)

  unfoldable pub sync : M ClaimState (Unit {0})
  unfolding found_pod
  sync s =
      found_pod (k.pod s.calls s.claim.spec.pod_name) (called (get_pod s.claim.spec.pod_name) s)

  -- Observe and the action that it returns.
  unfoldable pub observe : M ClaimState (Unit {0})
  unfolding sync
  observe s =
      if is_lost_phase s.claim.status.phase
      then done tt s
      else if s.claim.spec.pod_name =s ""
      then bind k s
      else sync s
