-- ===== src/Store/Stats.antt =====
-- The load of a CN: syncStats, collectQueryStats and patchStoreStats of
-- pkg/controllers/cnstore/controller.go.
pub mod Evidence
use matrixone_operator.Base.Decimal.{show_int}
use matrixone_operator.Base.Int.{◌+ℤ◌}
use matrixone_operator.Base.{
  ◌=s◌, if◌then◌else◌, count_if, ℕ, String, Bool, true, not, ◌&&◌, Option, none, some, List,
}
use matrixone_operator.Base.Map.{Map, insert}
use matrixone_operator.Api.Keys.{deletion_cost_anno, store_connection_anno, cn_uuid_label_key}
use matrixone_operator.Base.Run.{failed, Run, done, fail, M, ◌>>=◌, ◌>>◌, pure, throw}
use matrixone_operator.Base.Int.{pos}
use matrixone_operator.Api.Claim.{CnService}
use matrixone_operator.Api.Sets.{CnSet}
use matrixone_operator.Api.Version.{
  Version, has_mo_feature, pipeline_info, session_source, sharding_migration,
}
use matrixone_operator.Common.Score.{
  StoreScore, no_score, gen_deletion_cost, begin_observation, get_store_score, set_store_score,
  Json,
}
use matrixone_operator.Store.State.{
  CnPod, Session, StoreCall, show_process_list, pipeline_query, replica_query, StoreState,
  StoreServer, recorded, set_labels, set_annotations, patch_pod_with,
}
use matrixone_operator.Store.Client.{with_mo_client_set}

-- Whether a session counts: one from the proxy, or, in versions that do not tell, one of a tenant.
unfoldable pub is_counted_session : Version → Session → Bool
is_counted_session v s =
    if has_mo_feature v session_source
    then s.from_proxy
    else not (s.account =s "") && not (s.account =s "sys")

unfoldable pub count_sessions : Version → List Session → ℕ
count_sessions v ss = count_if (is_counted_session v) ss

-- The score after a query: an observation counts only if the query succeeded.
unfoldable pub observe_sessions : Option ℕ → StoreScore → StoreScore
observe_sessions none sc = sc
observe_sessions (some n) sc = record sc { session_count = pos n; session_observed = true }

unfoldable pub observe_pipelines : Option ℕ → StoreScore → StoreScore
observe_pipelines none sc = sc
observe_pipelines (some n) sc = record sc { pipeline_count = pos n; pipeline_observed = true }

unfoldable pub observe_replicas : Option ℕ → StoreScore → StoreScore
observe_replicas none sc = sc
observe_replicas (some n) sc = record sc { replica_count = pos n; replica_observed = true }

counted : Version → Option (List Session) → Option ℕ
counted v none = none
counted v (some ss) = some (count_sessions v ss)

-- The annotations and labels that patchStoreStats writes.
unfoldable pub with_stats : Json → String → StoreScore → CnPod → CnPod
with_stats j uid sc p = set_labels (insert cn_uuid_label_key uid p.pod.labels) (
    set_annotations
      (insert store_connection_anno (show_int (sc.pipeline_count +ℤ sc.session_count)) (
        insert deletion_cost_anno (show_int (gen_deletion_cost sc))
          (set_store_score j sc p.pod.annotations)))
      p)

or_zero_score : Option StoreScore → StoreScore
or_zero_score none = no_score
or_zero_score (some sc) = sc

module _ (k : StoreServer) where
  abbrev query : StoreCall → Option ℕ → M StoreState (Option ℕ)
  query c a s = done a (recorded c s)

  -- The number of sessions, none on an error.
  unfoldable pub get_session_count : String → Version → M StoreState (Option ℕ)
  unfolding counted
  get_session_count addr v s =
      query (show_process_list addr) (counted v (k.process_list s.calls addr)) s

  -- A feature that the version lacks needs no query: its count is zero.
  unfoldable pub get_pipeline_count : String → Version → M StoreState (Option ℕ)
  get_pipeline_count addr v s =
      if has_mo_feature v pipeline_info
      then query (pipeline_query addr) (k.pipelines s.calls addr) s
      else done (some 0) s

  unfoldable pub get_replica_count : String → Version → M StoreState (Option ℕ)
  get_replica_count addr v s =
      if has_mo_feature v sharding_migration
      then query (replica_query addr) (k.replicas s.calls addr) s
      else done (some 0) s

  -- The score after all queries.
  unfoldable pub collect_query_stats : StoreScore → String → Version → M StoreState StoreScore
  collect_query_stats sc addr v = do
    sessions ← get_session_count addr v
    pipelines ← get_pipeline_count addr v
    replicas ← get_replica_count addr v
    pure (observe_replicas replicas (observe_pipelines pipelines (observe_sessions sessions sc)))

  unfoldable pub patch_store_stats : StoreScore → M StoreState (Unit {0})
  patch_store_stats sc = λ s. patch_pod_with k (with_stats k.json (k.pod_uuid s.pod.pod) sc) s

  abbrev address_of : Option CnService → M StoreState String
  address_of none = throw failed
  address_of (some cn) = pure cn.query_address

  abbrev query_address : M StoreState String
  query_address s = address_of (k.store_cached s.calls (k.pod_uuid s.pod.pod)) s

  -- An unknown store leaves the round with no observation.
  refresh : StoreScore → Version → Run StoreState String → Run StoreState (Unit {0})
  refresh sc v (done addr s) =
      (do observed ← collect_query_stats sc addr v; patch_store_stats observed) s
  refresh sc v (fail e s) = patch_store_stats sc s

  -- The score with which the round begins.
  unfoldable pub first_score : ℕ → Map → StoreScore
  unfolding or_zero_score
  first_score t annotations =
      begin_observation t (or_zero_score (get_store_score k.json annotations))

  sync_started : CnSet → Option ℕ → M StoreState (Unit {0})
  unfolding refresh
  sync_started cs none = throw failed
  sync_started cs (some t) = λ s.
      refresh (first_score t s.pod.pod.annotations) (k.version_of s.pod.pod)
        (with_mo_client_set k cs query_address s)

  unfoldable pub sync_stats : CnSet → M StoreState (Unit {0})
  unfolding sync_started
  sync_stats cs s = sync_started cs s.pod.started s
