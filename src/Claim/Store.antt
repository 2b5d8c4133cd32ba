-- ===== src/Claim/Store.antt =====
-- The CN store of a claimed pod: patchStore and toStoreStatus of pkg/controllers/cnclaim/controller.go,
-- ResolveCNSet, ResolveLogSet and ToStoreLabels of pkg/controllers/common/cnstore.go.
use Prim.Native.Nat.{Ordering}
use Prim.Native.String.{compare as compare_text}
use matrixone_operator.Base.{◌=s◌, if◌then◌else◌, String, Option, none, some, List, [], ◌∷◌}
use matrixone_operator.Base.Run.{failed, done, fail, M, ◌>>=◌, ◌>>◌, pure, throw, missing}
use matrixone_operator.Base.Int.{ℤ, pos, negsuc}
use matrixone_operator.Api.Claim.{CnLabel, StoreStatus, WorkState, CnService}
use matrixone_operator.Api.Pod.{Pod}
use matrixone_operator.Base.Sort.{sort}
use matrixone_operator.Api.Sets.{CnSet}
use matrixone_operator.Common.Owner.{OwnerKind, cn_set}
use matrixone_operator.Common.Resolve.{resolve_cn_set, resolve_log_set}
use matrixone_operator.Claim.State.{
  get_owner, get_log_set, patch_store, clear_labels, StateLabel, Patched, patched, absent, rejected,
  ClaimState, Server, perform,
}

-- `lm[l.Key] = l.Values`
put_label : CnLabel → List CnLabel → List CnLabel
put_label l [] = l ∷ []
put_label l (m ∷ ms) = let rest = put_label l ms in if m.key =s l.key then l ∷ ms else m ∷ rest

put_labels : List CnLabel → List CnLabel → List CnLabel
unfolding put_label
put_labels [] ms = ms
put_labels (l ∷ ls) ms = put_labels ls (put_label l ms)

-- A map of labels as a list of its entries, each key once.
unfoldable pub to_store_labels : List CnLabel → List CnLabel
unfolding put_labels
to_store_labels ls = put_labels ls []

-- `cmp.Compare` on texts.
sign_of : Ordering → ℤ
sign_of Ordering.lt = negsuc 0
sign_of Ordering.eq = pos 0
sign_of Ordering.gt = pos 1

unfoldable pub compare_keys : CnLabel → CnLabel → ℤ
unfolding sign_of
compare_keys a b = sign_of (compare_text a.key b.key)

unfoldable pub to_store_status : CnService → Pod → StoreStatus
to_store_status cn p = record {
  service_id = cn.service_id;
  lock_service_address = cn.lock_service_address;
  pipeline_service_address = cn.pipeline_service_address;
  sql_address = cn.sql_address;
  query_address = cn.query_address;
  work_state = cn.work_state;
  labels = sort compare_keys cn.labels;
  pod_name = p.name;
  bound_time = none;
}

or_no_labels : Option (List CnLabel) → List CnLabel
or_no_labels none = []
or_no_labels (some ls) = ls

module _ (k : Server) where
  abbrev pub read_cn_set : String → M ClaimState CnSet
  read_cn_set name s = perform (get_owner cn_set name) (k.cn_set s.calls name) s

  abbrev pub read_other : OwnerKind → String → M ClaimState (Unit {0})
  read_other kind name s = perform (get_owner kind name) (k.other_owner s.calls kind name) s

  abbrev pub read_log_set : String → M ClaimState (Unit {0})
  read_log_set name s = perform (get_log_set name) (k.log_set s.calls name) s

  abbrev pub get_client : String → M ClaimState (Unit {0})
  get_client name s = if k.has_client s.calls name then done tt s else fail failed s

  abbrev pub patched_or_error : Patched → M ClaimState (Unit {0})
  patched_or_error patched = pure tt
  patched_or_error absent = throw missing
  patched_or_error rejected = throw failed

  abbrev pub send_patch : StateLabel → M ClaimState (Unit {0})
  send_patch req s =
      patched_or_error (k.store s.calls req) (record s { calls = patch_store req ∷ s.calls })

  abbrev pub cached_store : Option CnService → M ClaimState CnService
  cached_store none = throw failed
  cached_store (some cn) = pure cn

  -- With no labels to set they are cleared by a request of its own.
  abbrev pub clear_if_none : String → Option (List CnLabel) → M ClaimState (Unit {0})
  clear_if_none uid none = λ s. perform (clear_labels uid) (k.labels_cleared s.calls uid) s
  clear_if_none uid (some ls) = pure tt

  abbrev pub get_cached : String → M ClaimState CnService
  get_cached uid s = cached_store (k.stores_cached s.calls uid) s

  unfoldable pub patch_cn_store : Pod → WorkState → Option (List CnLabel) → M ClaimState CnService
  unfolding or_no_labels
  patch_cn_store p state ls = do
    cs ← resolve_cn_set read_cn_set read_other p.labels
    found ← resolve_log_set read_log_set cs
    get_client found.0
    let uid = k.pod_uuid p
    send_patch (record { uuid = uid; state = state; labels = ls })
    cn ← get_cached uid
    clear_if_none uid ls
    pure (record cn { work_state = state; labels = or_no_labels ls })
