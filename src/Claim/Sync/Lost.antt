-- ===== src/Claim/Sync/Lost.antt =====
-- What observing a claim leads to that refers to a pod.
use matrixone_operator.Base.{
  =s_iff, Bool, ◌≡◌, refl, sym, subst, ◌≢◌, ◌⊎◌, inl, inr, true, false, ◌∷◌, arith,
}
use matrixone_operator.Base.Run.{
  ApiError, not_found, conflict, refused, Error, resync, fail, api, Answer, ok, err, Run, done,
  ◌>>=◌, ◌>>◌, Ends, answer, Ends-ite,
}
use matrixone_operator.Api.Claim.{ClaimPhase, Claim, ClaimSpec, is_lost_phase}
use matrixone_operator.Api.Pod.{Pod, PodPhase}
use matrixone_operator.Claim.State.{get_pod, patch_claim, ClaimState, Server, called, set_claim}
use matrixone_operator.Claim.Sync.{
  wait_cache_timeout, has_ended, refer_to_none, is_just_bound, lose, pod_is_gone, sync_pod,
  found_pod, sync, observe,
}

-- The server's answer for the claim's pod.
abbrev pod_answer : Server → ClaimState → Answer Pod
pod_answer k s = k.pod s.calls s.claim.spec.pod_name

-- The claim was bound within the last ten seconds, when the clock was read.
abbrev is_fresh : Server → ClaimState → Bool
is_fresh k s =
    is_just_bound (k.now (get_pod s.claim.spec.pod_name ∷ s.calls)) s.claim.status.bound_time

-- The phases in which a claim gives its pod up; a Failed pod is kept.
abbrev HasEnded : PodPhase → Type 0
HasEnded f = (f ≡ PodPhase.succeeded) ⊎ (f ≡ PodPhase.unknown)

-- Whether the claim's pod is lost: it has ended, or it is not there and the claim was not bound within
-- the last ten seconds.
abbrev pub IsGone : Server → ClaimState → Type 0
IsGone k s =
    ((p : Pod) × (pod_answer k s ≡ ok p) × HasEnded p.phase)
    ⊎ ((pod_answer k s ≡ err not_found) × (is_fresh k s ≡ false))

-- The pod is there and has not ended.
abbrev pub IsThere : Server → ClaimState → Type 0
IsThere k s = (p : Pod) × (pod_answer k s ≡ ok p) × ¬ HasEnded p.phase

-- A claim that every further observation leaves as it is.
abbrev Rests : ClaimState → Type 0
Rests t = (k : Server) → observe k t ≡ done tt t

-- What a run that ends well says, and one that fails.
abbrev pub Settled : Server → ClaimState → ClaimState → Type 0
Settled k s t = (IsGone k s × (t.claim.status.phase ≡ ClaimPhase.lost) × Rests t) ⊎ IsThere k s

pub data Refused (k : Server) (s : ClaimState) (e : Error) (t : ClaimState) : Type 0 where
  too_fresh :
      pod_answer k s ≡ err not_found
      → is_fresh k s ≡ true
      → e ≡ resync wait_cache_timeout
      → t.claim ≡ s.claim
      → Refused k s e t
  not_cleared :
      (x : ApiError)
      → pod_answer k s ≡ err not_found
      → is_fresh k s ≡ false
      → e ≡ api x
      → t.claim ≡ refer_to_none s.claim
      → Refused k s e t
  not_read :
      (x : ApiError)
      → pod_answer k s ≡ err x
      → x ≢ not_found
      → e ≡ api x
      → t.claim ≡ s.claim
      → Refused k s e t
  still_there : IsThere k s → Refused k s e t

abbrev Observed : Server → ClaimState → Run ClaimState (Unit {0}) → Type 0
Observed k s r = Ends (λ _ t. Settled k s t) (λ e t. Refused k s e t) r

ended_cases : (f : PodPhase) → HasEnded f ⊎ ((¬ HasEnded f) × (has_ended f ≡ false))
unfolding has_ended
ended_cases PodPhase.succeeded = inl (inl refl)
ended_cases PodPhase.unknown = inl (inr refl)
ended_cases PodPhase.unset = inr (λ h. ground (arith, h), refl)
ended_cases PodPhase.pending = inr (λ h. ground (arith, h), refl)
ended_cases PodPhase.running = inr (λ h. ground (arith, h), refl)
ended_cases PodPhase.failed = inr (λ h. ground (arith, h), refl)

has_ended_lem : (f : PodPhase) → HasEnded f → has_ended f ≡ true
unfolding has_ended
has_ended_lem f (inl e) = rw e refl
has_ended_lem f (inr e) = rw e refl

lost_is_kept : (s : ClaimState) → s.claim.status.phase ≡ ClaimPhase.lost → Rests s
unfolding observe
lost_is_kept s lost k = ground arith

there-Observed :
    (k : Server) (s : ClaimState) (r : Run ClaimState (Unit {0})) → IsThere k s → Observed k s r
there-Observed k s (done a t) h = inr h
there-Observed k s (fail e t) h = still_there h

cleared-Observed :
    (k : Server) (s u : ClaimState) (a : Answer Claim)
    → pod_answer k s ≡ err not_found
    → is_fresh k s ≡ false
    → u.claim ≡ refer_to_none s.claim
    → Observed k s (((answer a >>= set_claim) >> lose k) u)
unfolding lose
cleared-Observed k s u (ok c) gone late e = inl (inr (gone, late), refl, lost_is_kept _ refl)
cleared-Observed k s u (err x) gone late e = not_cleared x gone late refl e

gone-Observed :
    (k : Server) (s : ClaimState)
    → pod_answer k s ≡ err not_found
    → Observed k s (pod_is_gone k (called (get_pod s.claim.spec.pod_name) s))
unfolding pod_is_gone
gone-Observed k s gone =
    Ends-ite _ _ (is_fresh k s) _ _ (λ fresh. too_fresh gone fresh refl refl)
      (λ late.
        cleared-Observed k s
          (called (patch_claim (refer_to_none s.claim))
            (record (called (get_pod (ClaimSpec.pod_name (Claim.spec (ClaimState.claim s)))) s) {
              claim = refer_to_none (ClaimState.claim s);
            }))
          (k.write_claim (get_pod s.claim.spec.pod_name ∷ s.calls) (refer_to_none s.claim)) gone
          late refl)

pod-Observed :
    (k : Server) (s : ClaimState) (p : Pod)
    → pod_answer k s ≡ ok p
    → Observed k s (sync_pod k p (called (get_pod s.claim.spec.pod_name) s))
unfolding sync_pod lose
pod-Observed k s p found = elim (ended_cases p.phase) [
  | inl ended ↦
      rw (has_ended_lem p.phase ended, sync_pod)
        (inl (inl (p, found, ended), refl, lost_is_kept _ refl))
  | inr (kept, b) ↦ there-Observed k s _ (p, found, kept)
]

found-Observed :
    (k : Server) (s : ClaimState) (a : Answer Pod)
    → pod_answer k s ≡ a
    → Observed k s (found_pod k a (called (get_pod s.claim.spec.pod_name) s))
unfolding found_pod
found-Observed k s (ok p) e = pod-Observed k s p e
found-Observed k s (err not_found) e = gone-Observed k s e
found-Observed k s (err conflict) e = not_read conflict e (λ h. ground (arith, h)) refl refl
found-Observed k s (err refused) e = not_read refused e (λ h. ground (arith, h)) refl refl

observe_syncs :
    (k : Server) (s : ClaimState)
    → is_lost_phase s.claim.status.phase ≡ false
    → s.claim.spec.pod_name ≢ ""
    → observe k s ≡ sync k s
unfolding observe
observe_syncs k s live named = ground (arith, =s_iff s.claim.spec.pod_name "")

-- Observing a claim that is not Lost and refers to a pod ends well only in two ways: the claim is
-- Lost, its pod having answered with the phase Succeeded or Unknown, or being missing while the
-- claim was not bound within the last ten seconds, and then every further observation leaves it as
-- it is; or the pod is there in another phase, Failed included. It fails with the claim unchanged
-- where the pod is missing but the claim was just bound, after which it comes back in ten seconds,
-- or where the pod cannot be read; without the claim's pod where the patch that clears it is
-- refused; and otherwise only with the pod there in such another phase.
pub observe-IsLost :
    (k : Server) (s : ClaimState)
    → is_lost_phase s.claim.status.phase ≡ false
    → s.claim.spec.pod_name ≢ ""
    → Observed k s (observe k s)
unfolding sync
observe-IsLost k s live named =
    subst (Observed k s) (sym (observe_syncs k s live named)) (found-Observed k s _ refl)
