-- ===== src/Claim/Trace.antt =====
-- Steps of the claim controller that leave the claim alone: the calls that they make.
use matrixone_operator.Base.{if◌then◌else◌, String, ◌≡◌, true, false, Option, none, some, List}
use matrixone_operator.Base.Run.{failed, Answer, ok, err, done, fail, M, Ends, answer}
use matrixone_operator.Api.Claim.{CnLabel, WorkState, Claim}
use matrixone_operator.Api.Pod.{Pod}
use matrixone_operator.Base.Trace.{Extends, same, more, Only, Only-bind, Only-then}
use matrixone_operator.Claim.State.{
  Call, ClaimState, Server, called, perform, get_owner, get_log_set, patch_store, clear_labels,
  StateLabel, patched, absent, rejected,
}
use matrixone_operator.Claim.Store.{
  patch_cn_store, get_client, patched_or_error, send_patch, cached_store, clear_if_none, get_cached,
  read_cn_set, read_other, read_log_set,
}
use matrixone_operator.Common.Owner.{OwnerKind}
use matrixone_operator.Common.Resolve.{resolve_cn_set-Only, resolve_log_set-Only}

module _ (c : Claim) (P : Call → Type 0) where
  abbrev IsOf : ClaimState → Type 0
  IsOf s = s.claim ≡ c

  abbrev calls_of : ClaimState → List Call
  calls_of s = s.calls

  abbrev pub OnlyCalls {ℓ} : {A : Type ℓ} → M ClaimState A → Type 0
  OnlyCalls m = Only calls_of IsOf P m

  pub answered-OnlyCalls {ℓ} :
      {A : Type ℓ} (call : ClaimState → Call) (a : ClaimState → Answer A)
      → ((s : ClaimState) → s.claim ≡ c → P (call s))
      → OnlyCalls (λ s. perform (call s) (a s) s)
  answered-OnlyCalls call a f s i =
      elim (a s)
        as (λ r.
          Ends (λ _ t. IsOf t × Extends P s.calls t.calls)
            (λ _ t. IsOf t × Extends P s.calls t.calls) (answer r (called (call s) s))) [
              | ok x ↦ (i, more (call s) s.calls (f s i) same)
              | err e ↦ (i, more (call s) s.calls (f s i) same)
            ]

  module _ (k : Server) (reads : (kind : OwnerKind) (name : String) → P (get_owner kind name))
      (reads_logs : (name : String) → P (get_log_set name)) where
    get_client-OnlyCalls : (name : String) → OnlyCalls (get_client k name)
    get_client-OnlyCalls name s i =
        elim (k.has_client s.calls name)
          as (λ b.
            Ends (λ _ t. IsOf t × Extends P s.calls t.calls)
              (λ _ t. IsOf t × Extends P s.calls t.calls)
              (if b then done tt s else fail failed s)) [ true ↦ (i, same) | false ↦ (i, same) ]

    send_patch-OnlyCalls : (req : StateLabel) → P (patch_store req) → OnlyCalls (send_patch k req)
    send_patch-OnlyCalls req h s i =
        elim (k.store s.calls req)
          as (λ b.
            Ends (λ _ t. IsOf t × Extends P s.calls t.calls)
              (λ _ t. IsOf t × Extends P s.calls t.calls)
              (patched_or_error k b (called (patch_store req) s))) [
                | patched ↦ (i, more (patch_store req) s.calls h same)
                | absent ↦ (i, more (patch_store req) s.calls h same)
                | rejected ↦ (i, more (patch_store req) s.calls h same)
              ]

    get_cached-OnlyCalls : (uid : String) → OnlyCalls (get_cached k uid)
    get_cached-OnlyCalls uid s i =
        elim (k.stores_cached s.calls uid)
          as (λ b.
            Ends (λ _ t. IsOf t × Extends P s.calls t.calls)
              (λ _ t. IsOf t × Extends P s.calls t.calls) (cached_store k b s)) [
                | none ↦ (i, same)
                | some cn ↦ (i, same)
              ]

    clear_if_none-OnlyCalls :
        (uid : String) (ls : Option (List CnLabel))
        → P (clear_labels uid)
        → OnlyCalls (clear_if_none k uid ls)
    clear_if_none-OnlyCalls uid ls h = elim ls as (λ o. OnlyCalls (clear_if_none k uid o)) [
      | none ↦
          answered-OnlyCalls (λ _. clear_labels uid) (λ s. k.labels_cleared s.calls uid) (λ _ _. h)
      | some x ↦ λ s i. (i, same)
    ]

    pub patch_cn_store-OnlyCalls :
        (p : Pod) (state : WorkState) (ls : Option (List CnLabel))
        → P (patch_store (record { uuid = k.pod_uuid p; state = state; labels = ls }))
        → P (clear_labels (k.pod_uuid p))
        → OnlyCalls (patch_cn_store k p state ls)
    unfolding patch_cn_store
    patch_cn_store-OnlyCalls p state ls h g =
        Only-bind calls_of IsOf P _ _
          (resolve_cn_set-Only calls_of IsOf P (read_cn_set k) (read_other k) p.labels
            (λ name.
              answered-OnlyCalls (λ _. get_owner OwnerKind.cn_set name) _
                (λ _ _. reads OwnerKind.cn_set name))
            (λ kind name. answered-OnlyCalls (λ _. get_owner kind name) _ (λ _ _. reads kind name)))
          (λ cs.
            Only-bind calls_of IsOf P _ _
              (resolve_log_set-Only calls_of IsOf P (read_log_set k) cs
                (λ name. answered-OnlyCalls (λ _. get_log_set name) _ (λ _ _. reads_logs name)))
              (λ found. Only-then calls_of IsOf P _ _ (get_client-OnlyCalls found.0) (
                Only-then calls_of IsOf P _ _ (send_patch-OnlyCalls _ h) (
                  Only-bind calls_of IsOf P _ _ (get_cached-OnlyCalls _) (λ cn.
                    Only-then calls_of IsOf P _ _ (clear_if_none-OnlyCalls _ ls g)
                      (λ s i. (i, same)))))))
