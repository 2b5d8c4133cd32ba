-- ===== src/Store/Drain.antt =====
-- Draining a CN store before its pod stops: OnPreparingStop, OnPreparingUpdate and what they call, of
-- pkg/controllers/cnstore/controller.go.
pub mod Release
use matrixone_operator.Base.{
  ltb, if◌then◌else◌, ℕ, ◌+◌, String, Bool, true, false, Option, none, some,
}
use matrixone_operator.Base.Map.{lookup, has, insert, delete}
use matrixone_operator.Api.Keys.{
  direct_pod_label, store_draining_start_anno, lock_restart_set, diagnos_draining_anno,
}
use matrixone_operator.Base.Run.{
  api, resync, failed, panicked, out_of_fuel, Run, done, fail, M, ◌>>=◌, ◌>>◌, pure, throw, missing,
}
use matrixone_operator.Api.Claim.{WorkState}
use matrixone_operator.Api.Sets.{
  CnSet, get_store_drain_enabled, get_store_drain_timeout, get_min_delay_duration,
}
use matrixone_operator.Api.Version.{has_mo_feature, lock_migration}
use matrixone_operator.Common.Score.{StoreScore, is_safe_to_reclaim, get_store_score}
use matrixone_operator.Store.State.{
  CnPod, can_restart, remain_txns, set_restart, delete_pod, StoreState, StoreServer, recorded,
  request, remote, set_annotations, patch_pod_with,
}
use matrixone_operator.Store.Client.{retry_interval, with_mo_client_set, patch_store_state}
use matrixone_operator.Store.Readiness.{message_prepare_stop, patch_cn_readiness}

-- Five minutes.
abbrev pub store_drain_takes_long_duration : ℕ
store_drain_takes_long_duration = 300

-- The pod that completeDraining patches.
unfoldable pub released_pod : CnPod → CnPod
released_pod p =
    set_annotations
      (delete diagnos_draining_anno
        (delete lock_restart_set (delete store_draining_start_anno p.pod.annotations)))
      (record p { has_finalizer = false })

abbrev pub annotate : String → String → CnPod → CnPod
annotate key v p = set_annotations (insert key v p.pod.annotations) p

module _ (k : StoreServer) where
  -- A pod of no CloneSet is deleted by the operator.
  abbrev delete_direct_pod : M StoreState (Unit {0})
  delete_direct_pod s =
      if has direct_pod_label s.pod.pod.labels
      then request (delete_pod s.pod.pod.name) (k.pod_deleted s.calls s.pod.pod.name) s
      else done tt s

  unfoldable pub complete_draining : M StoreState (Unit {0})
  complete_draining = do patch_pod_with k released_pod; delete_direct_pod

  unfoldable pub forgive : Run StoreState (Unit {0}) → Run StoreState (Unit {0})
  forgive (done a s) = done tt s
  forgive (fail e s) = done tt s

  -- An error of the patch is logged.
  unfoldable pub diagnosis_draining : M StoreState (Unit {0})
  unfolding forgive
  diagnosis_draining s = forgive (patch_pod_with k (annotate diagnos_draining_anno "y") s)

  abbrev pub safe_score : Option StoreScore → M StoreState Bool
  safe_score none = throw failed
  safe_score (some sc) = pure (is_safe_to_reclaim sc)

  abbrev own_score : M StoreState Bool
  own_score s = safe_score (get_store_score k.json s.pod.pod.annotations) s

  abbrev set_draining : M StoreState (Unit {0})
  set_draining s =
      patch_store_state k
        (record { uuid = k.pod_uuid s.pod.pod; state = WorkState.draining; labels = none }) s

  unfoldable pub handle_connection_draining : M StoreState Bool
  handle_connection_draining = do set_draining; own_score

  -- The number of remaining transactions is logged.
  abbrev ask_remaining : String → M StoreState (Unit {0})
  ask_remaining uid s = done tt (recorded (remain_txns uid) s)

  mark_restart : Bool → M StoreState (Unit {0})
  mark_restart false = throw failed
  mark_restart true = patch_pod_with k (annotate lock_restart_set "true")

  unfoldable pub request_restart : String → Bool → M StoreState (Unit {0})
  unfolding mark_restart
  request_restart uid true = pure tt
  request_restart uid false = do
    set ← λ s. remote (set_restart uid) (k.restart_set s.calls uid) s
    mark_restart set

  unfoldable pub after_restart_check : String → Bool → M StoreState Bool
  unfolding request_restart
  after_restart_check uid true = pure true
  after_restart_check uid false = do
    ask_remaining uid
    λ s. request_restart uid (has lock_restart_set s.pod.pod.annotations) s
    pure false

  unfoldable pub migrate_locks : String → M StoreState Bool
  unfolding after_restart_check
  migrate_locks uid = do
    allowed ← λ s. remote (can_restart uid) (k.restart_allowed s.calls uid) s
    after_restart_check uid allowed

  unfoldable pub handle_lock_migration : M StoreState Bool
  unfolding migrate_locks
  handle_lock_migration s =
      if has_mo_feature (k.version_of s.pod.pod) lock_migration
      then migrate_locks (k.pod_uuid s.pod.pod) s
      else done true s

  -- `time.Since(start) < d`
  abbrev pub wait_delay : ℕ → ℕ → M StoreState (Unit {0})
  wait_delay start d s = if ltb (k.now s.calls) (start + d) then fail (resync d) s else done tt s

  -- Locks migrate after the connections.
  unfoldable pub locks_if : Bool → M StoreState Bool
  locks_if false = pure false
  locks_if true = handle_lock_migration

  -- One round of draining: whether connections and locks have both migrated.
  unfoldable pub drain_round : CnSet → ℕ → M StoreState Bool
  unfolding locks_if
  drain_round cs start = do
    migrated ← handle_connection_draining
    wait_delay start (get_min_delay_duration cs.scaling_config)
    locks_if migrated

  -- `time.Since(start) > d`
  abbrev pub diagnose_after : ℕ → M StoreState (Unit {0})
  diagnose_after start s =
      if ltb (start + store_drain_takes_long_duration) (k.now s.calls)
      then diagnosis_draining s
      else done tt s

  keep_draining : ℕ → M StoreState (Unit {0})
  keep_draining start = do diagnose_after start; throw (resync retry_interval)

  after_round : ℕ → Run StoreState Bool → Run StoreState (Unit {0})
  unfolding keep_draining
  after_round start (done true s) = complete_draining s
  after_round start (done false s) = keep_draining start s
  -- a store that HAKeeper does not know has nothing to drain
  after_round start (fail missing s) = complete_draining s
  after_round start (fail (api e) s) = fail (api e) s
  after_round start (fail (resync n) s) = fail (resync n) s
  after_round start (fail failed s) = fail failed s
  after_round start (fail panicked s) = fail panicked s
  after_round start (fail out_of_fuel s) = fail out_of_fuel s

  unfoldable pub drain_since : CnSet → ℕ → M StoreState (Unit {0})
  unfolding after_round
  drain_since cs start s =
      if ltb (start + get_store_drain_timeout cs.scaling_config) (k.now s.calls)
      then complete_draining s
      else after_round start (with_mo_client_set k cs (drain_round cs start) s)

  parsed_start : Option ℕ → M StoreState ℕ
  parsed_start none = throw failed
  parsed_start (some t) = pure t

  -- When draining began: the annotation says so, or it begins now.
  draining_start : Option String → M StoreState ℕ
  unfolding parsed_start
  draining_start (some text) = parsed_start (k.parse_time text)
  draining_start none = λ s.
      (do
        patch_pod_with k (annotate store_draining_start_anno (k.format_time (k.now s.calls)))
        pure (k.now s.calls))
        s

  abbrev start_of_drain : M StoreState ℕ
  start_of_drain s = draining_start (lookup store_draining_start_anno s.pod.pod.annotations) s

  drain_if_enabled : CnSet → Bool → M StoreState (Unit {0})
  unfolding draining_start
  drain_if_enabled cs false = complete_draining
  drain_if_enabled cs true = do start ← start_of_drain; drain_since cs start

  unfoldable pub on_preparing_stop : CnSet → M StoreState (Unit {0})
  unfolding drain_if_enabled
  on_preparing_stop cs = do
    patch_cn_readiness k false message_prepare_stop
    drain_if_enabled cs (get_store_drain_enabled cs.scaling_config)

  -- A paused update restarts no container.
  unfoldable pub on_preparing_update : CnSet → M StoreState (Unit {0})
  unfolding on_preparing_stop
  on_preparing_update cs = elim cs.pause_update [
    | true ↦ complete_draining
    | false ↦ on_preparing_stop cs
  ]
