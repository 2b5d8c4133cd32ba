-- ===== src/Claim/Finalize/Safe.antt =====
-- A claim that goes away: what it does to the pods that it owns.
use matrixone_operator.Base.{
  String, ◌≡◌, refl, sym, ◌∙◌, subst, ◌↔◌, Bool, true, false, none, List, [], ◌∷◌, arith,
}
use matrixone_operator.Base.Run.{
  api, resync, failed, panicked, out_of_fuel, ok, Run, done, fail, M, ◌>>=◌, Ends, Ends-bind,
  Ends-map, answer, answer-Ends, missing, ok-eq, Ends-both, Ends-any, Ends-if,
}
use matrixone_operator.Api.Claim.{WorkState, CnService, Claim, is_ready}
use matrixone_operator.Api.Pod.{Pod}
use mathlib.Core.List.{Mem, Subset, mem-cons_self, mem-cons_of_mem}
use matrixone_operator.Base.Trace.{
  Extends, same, more, Extends-trans, Only-bind, Only-then, Only-if,
}
use matrixone_operator.Common.Owner.{OwnerKind}
use matrixone_operator.Claim.State.{
  Call, list_pods, list_claims, get_owner, get_log_set, patch_store, clear_labels, patch_pod,
  ClaimState, Server, called,
}
use matrixone_operator.Claim.Trace.{OnlyCalls, answered-OnlyCalls, patch_cn_store-OnlyCalls}
use matrixone_operator.Claim.Index.{ClaimIndex, holders, build_pod_claim_index}
use matrixone_operator.Claim.Index.Refine.{other_holders, holders-build_pod_claim_index}
use matrixone_operator.Claim.Select.{not_found_is_empty, find_pods}
use matrixone_operator.Claim.Bind.{claimed_selector}
use matrixone_operator.Claim.Store.{patch_cn_store}
use matrixone_operator.Claim.Reclaim.{
  reclaimed_pod, transferred_pod, tolerate_missing, drain_store, reclaim_cn, transfer_pod_ownership,
}
use matrixone_operator.Claim.Finalize.{give_up_pod, give_up_pods, finalize_pods, finalize}

-- The calls that are allowed to a claim `c` that goes away: a pod that no other claim holds is drained
-- and labelled as reclaimed, and one that a single ready claim holds is labelled as that claim's.
pub data IsRelease (k : Server) (c : Claim) (owned : List Pod) (claims : List Claim)
    : Call → Type 0 where
  pods_listed : IsRelease k c owned claims list_pods
  claims_listed : IsRelease k c owned claims list_claims
  owner_read : (kind : OwnerKind) (name : String) → IsRelease k c owned claims (get_owner kind name)
  log_set_read : (name : String) → IsRelease k c owned claims (get_log_set name)
  drained :
      (p : Pod)
      → Mem p owned
      → other_holders c.name p.name claims ≡ []
      → IsRelease k c owned claims
          (patch_store (record { uuid = k.pod_uuid p; state = WorkState.draining; labels = none }))
  cleared :
      (p : Pod)
      → Mem p owned
      → other_holders c.name p.name claims ≡ []
      → IsRelease k c owned claims (clear_labels (k.pod_uuid p))
  reclaimed :
      (p : Pod) (time : String)
      → Mem p owned
      → other_holders c.name p.name claims ≡ []
      → IsRelease k c owned claims (patch_pod (reclaimed_pod time c [] p))
  transferred :
      (p : Pod) (holder : Claim)
      → Mem p owned
      → other_holders c.name p.name claims ≡ holder ∷ []
      → is_ready holder ≡ true
      → IsRelease k c owned claims (patch_pod (transferred_pod c holder p))

module _ (k : Server) (c : Claim) (owned : List Pod) (claims : List Claim) where
  abbrev Releases {ℓ} : {A : Type ℓ} → M ClaimState A → Type 0
  Releases m = OnlyCalls c (IsRelease k c owned claims) m

  abbrev the_index : ClaimIndex
  the_index = build_pod_claim_index c.name claims

  abbrev Released {ℓ} : {A : Type ℓ} → ClaimState → Run ClaimState A → Type 0
  Released s r =
      Ends (λ _ t. (t.claim ≡ c) × Extends (IsRelease k c owned claims) s.calls t.calls)
        (λ _ t. (t.claim ≡ c) × Extends (IsRelease k c owned claims) s.calls t.calls) r

  forgiven-Released :
      (s : ClaimState) (r : Run ClaimState CnService)
      → Released s r
      → Released s (tolerate_missing k r)
  unfolding tolerate_missing
  forgiven-Released s (done cn t) h = h
  forgiven-Released s (fail missing t) h = h
  forgiven-Released s (fail (api e) t) h = h
  forgiven-Released s (fail (resync n) t) h = h
  forgiven-Released s (fail failed t) h = h
  forgiven-Released s (fail panicked t) h = h
  forgiven-Released s (fail out_of_fuel t) h = h

  drain_store-Releases :
      (p : Pod) → Mem p owned → other_holders c.name p.name claims ≡ [] → Releases (drain_store k p)
  unfolding drain_store
  drain_store-Releases p m free s i =
      forgiven-Released s (patch_cn_store k p WorkState.draining none s) (
        patch_cn_store-OnlyCalls c (IsRelease k c owned claims) k owner_read log_set_read p
          WorkState.draining none (drained p m free) (cleared p m free) s i)

  reclaim_cn-Releases :
      (p : Pod)
      → Mem p owned
      → other_holders c.name p.name claims ≡ []
      → Releases (reclaim_cn k [] p)
  unfolding reclaim_cn
  reclaim_cn-Releases p m free = Only-then _ _ _ _ _ (drain_store-Releases p m free) (
      answered-OnlyCalls c (IsRelease k c owned claims)
        (λ s. patch_pod (reclaimed_pod (k.now_text s.calls) s.claim [] p)) _
        (λ s e.
          subst
            (λ d.
              IsRelease k c owned claims (patch_pod (reclaimed_pod (k.now_text s.calls) d [] p)))
            (sym e) (reclaimed p (k.now_text s.calls) m free)))

  transfer-Releases :
      (d : Claim) (p : Pod) (holder : Claim)
      → d ≡ c
      → Mem p owned
      → other_holders c.name p.name claims ≡ holder ∷ []
      → is_ready holder ≡ true
      → Releases (transfer_pod_ownership k d holder p)
  unfolding transfer_pod_ownership
  transfer-Releases d p holder e m one ready =
      answered-OnlyCalls c (IsRelease k c owned claims)
        (λ _. patch_pod (transferred_pod d holder p)) _
        (λ s _.
          subst (λ d'. IsRelease k c owned claims (patch_pod (transferred_pod d' holder p))) (sym e)
            (transferred p holder m one ready))

  give_up_pod-Releases :
      (hs : List Claim) (p : Pod)
      → Mem p owned
      → other_holders c.name p.name claims ≡ hs
      → Releases (give_up_pod k hs p)
  unfolding give_up_pod
  give_up_pod-Releases [] p m e =
      Only-bind _ _ _ _ _ (reclaim_cn-Releases p m e) (λ _ s i. (i, same))
  give_up_pod-Releases (holder ∷ []) p m e =
      Only-if _ _ _ (is_ready holder) _ _
        (λ ready s i.
          Only-bind _ _ _ _ _ (transfer-Releases s.claim p holder i m e ready) (λ _ t j. (j, same))
            s i)
        (λ _ s i. (i, same))
  give_up_pod-Releases (_ ∷ _ ∷ _) p m e = λ s i. (i, same)

  give_up_pods-Releases : (ps : List Pod) → Subset ps owned → Releases (give_up_pods k the_index ps)
  unfolding give_up_pods
  give_up_pods-Releases [] sub = λ s i. (i, same)
  give_up_pods-Releases (p ∷ ps) sub =
      Only-bind _ _ _ _ _
        (give_up_pod-Releases (holders p.name the_index) p (sub p mem-cons_self)
          (sym (holders-build_pod_claim_index c.name p.name claims)))
        (λ go_on.
          Only-if _ _ _ go_on _ _
            (λ _. give_up_pods-Releases ps (λ q m. sub q (mem-cons_of_mem p m)))
            (λ _ s i. (i, same)))

  give_up_pod-not_last :
      (ps : List Pod) (s : ClaimState)
      → Ends (λ b _. b ≡ false) (λ _ _. Unit {0}) (give_up_pods k the_index ps s)
  unfolding give_up_pods
  give_up_pod-not_last [] s = refl
  give_up_pod-not_last (p ∷ ps) s =
      Ends-bind (λ b _. b ≡ false) (λ _ _. Unit {0}) (give_up_pod k (holders p.name the_index) p s)
        _ (Ends-any _)
        (λ go_on t _. Ends-if _ _ go_on _ _ t (λ _. give_up_pod-not_last ps t) (λ _. refl))

  abbrev Finished : ClaimState → Run ClaimState Bool → Type 0
  Finished s r =
      Ends
        (λ b t. ((b ≡ true) ↔ (owned ≡ [])) × Extends (IsRelease k c owned claims) s.calls t.calls)
        (λ _ t. Extends (IsRelease k c owned claims) s.calls t.calls) r

module _ (k : Server) (c : Claim) (claims : List Claim) (p : Pod) (ps : List Pod) where
  -- The pods, once the other claims are listed.
  gave_up-Finished :
      (s : ClaimState)
      → s.claim ≡ c
      → Finished k c
          (p ∷ ps)
          claims
          s
          (give_up_pods k (build_pod_claim_index c.name claims) (p ∷ ps) s)
  gave_up-Finished s i =
      Ends-map _ _ _ _ (give_up_pods k (build_pod_claim_index c.name claims) (p ∷ ps) s)
        (λ b t h. ((λ e. ground (arith, h.1), λ e. ground (arith, e)), h.0.1)) (λ _ t h. h.0.1)
        (Ends-both _ _ _ _ (give_up_pods k (build_pod_claim_index c.name claims) (p ∷ ps) s)
          (give_up_pods-Releases k c (p ∷ ps) claims (p ∷ ps) (λ _ m. m) s i)
          (give_up_pod-not_last k c (p ∷ ps) claims (p ∷ ps) s))

  some_Finished :
      (s : ClaimState)
      → s.claim ≡ c
      → k.claims s.calls ≡ ok claims
      → Finished k c (p ∷ ps) claims s (
          (answer (k.claims s.calls)
              >>= (λ cs. give_up_pods k (build_pod_claim_index c.name cs) (p ∷ ps)))
            (called list_claims s))
  some_Finished s i claimed =
      answer-Ends _ _ (called list_claims s) (k.claims s.calls) _
        (λ cs q.
          subst
            (λ d.
              Finished k c (p ∷ ps) claims s
                (give_up_pods k (build_pod_claim_index c.name d) (p ∷ ps) (called list_claims s)))
            (ok-eq (sym claimed ∙ q)) (widen (gave_up-Finished (called list_claims s) i)))
        (λ e _. more _ _ claims_listed same)
    where
      widen :
          Finished k c
            (p ∷ ps)
            claims
            (called list_claims s)
            (give_up_pods k (build_pod_claim_index c.name claims) (p ∷ ps) (called list_claims s))
          → Finished k c
              (p ∷ ps)
              claims
              s
              (give_up_pods k (build_pod_claim_index c.name claims) (p ∷ ps) (called list_claims s))
      widen h =
          Ends-map _ _ _ _
            (give_up_pods k (build_pod_claim_index c.name claims) (p ∷ ps) (called list_claims s))
            (λ _ _ g. (g.0, Extends-trans (more _ _ claims_listed same) g.1))
            (λ _ _ g. Extends-trans (more _ _ claims_listed same) g) h

-- Where the server lists the pods `owned` as owned by the claim and `claims` as the claims,
-- Finalize answers that the claim can go exactly if `owned` is empty; and in every run, also one
-- that ends in an error, it only reads, drains and labels as reclaimed pods of `owned` that no
-- other live claim of `claims` holds, and labels a pod of `owned` as another claim's only if that
-- claim is the only other holder and is ready.
pub finalize-releases :
    (k : Server) (s : ClaimState) (owned : List Pod) (claims : List Claim)
    → not_found_is_empty (k.pods s.calls (claimed_selector s.claim)) ≡ ok owned
    → k.claims (list_pods ∷ s.calls) ≡ ok claims
    → Ends
        (λ b t.
          ((b ≡ true) ↔ (owned ≡ [])) × Extends (IsRelease k s.claim owned claims) s.calls t.calls)
        (λ _ t. Extends (IsRelease k s.claim owned claims) s.calls t.calls)
        (finalize k s)
unfolding finalize find_pods finalize_pods
finalize-releases k s owned claims listed claimed =
    answer-Ends _ _ (called list_pods s)
      (not_found_is_empty (k.pods s.calls (claimed_selector s.claim))) _
      (λ ps q.
        subst (λ d. Finished k s.claim owned claims s (finalize_pods k d (called list_pods s)))
          (ok-eq (sym listed ∙ q)) (finished owned))
      (λ e _. more _ _ pods_listed same)
  where
    finished :
        (ps : List Pod) → Finished k s.claim ps claims s (finalize_pods k ps (called list_pods s))
    finished [] = ((λ _. refl, λ _. refl), more _ _ pods_listed same)
    finished (p ∷ ps) =
        Ends-map _ _ _ _ (finalize_pods k (p ∷ ps) (called list_pods s))
          (λ _ _ g. (g.0, Extends-trans (more _ _ pods_listed same) g.1))
          (λ _ _ g. Extends-trans (more _ _ pods_listed same) g)
          (some_Finished k s.claim claims p ps (called list_pods s) refl claimed)
