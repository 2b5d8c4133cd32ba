-- ===== src/LogSet/Observe/Quiet.antt =====
-- The parts of Observe that only make calls: they keep the object, the status and the condition.
use matrixone_operator.Base.{leb, length, ◌≡◌, refl, ◌∙◌, List, []}
use matrixone_operator.Base.Run.{
  Answer, ok, err, Run, done, fail, M, ◌>>◌, Ends, Ends-bind, Ends-map, answer, Ends-ite,
}
use matrixone_operator.LogSet.State.{
  LogCall, wrap, LogSetState, LogSetServer, tell, call, on_bucket,
}
use matrixone_operator.Bucket.{Calls, BucketServer}
use matrixone_operator.Bucket.Claim.{sync_own_running_ann}
use matrixone_operator.LogSet.Observe.{sync_running}

-- A run that only makes calls.
pub record IsKept (s t : LogSetState) : Type 0 where
  pub same_object : t.log_set ≡ s.log_set
  pub same_status : t.status ≡ s.status
  pub same_ready : t.ready ≡ s.ready

pub IsKept-refl : (s : LogSetState) → IsKept s s
IsKept-refl s = record { same_object = refl; same_status = refl; same_ready = refl }

pub IsKept-trans : {s t u : LogSetState} → IsKept s t → IsKept t u → IsKept s u
IsKept-trans a b = record {
  same_object = IsKept.same_object b ∙ IsKept.same_object a;
  same_status = IsKept.same_status b ∙ IsKept.same_status a;
  same_ready = IsKept.same_ready b ∙ IsKept.same_ready a;
}

abbrev pub Quiet {ℓ} : {A : Type ℓ} → M LogSetState A → Type 0
Quiet m = (s : LogSetState) → Ends (λ _ t. IsKept s t) (λ _ t. IsKept s t) (m s)

pub call-Quiet {ℓ} : {A : Type ℓ} (c : LogCall) (f : List LogCall → Answer A) → Quiet (call c f)
call-Quiet {A} c f s = go (f s.calls)
  where
    go : (a : Answer A) → Ends (λ _ t. IsKept s t) (λ _ t. IsKept s t) (answer a (tell c s))
    go (ok a) = record { same_object = refl; same_status = refl; same_ready = refl }
    go (err e) = record { same_object = refl; same_status = refl; same_ready = refl }

pub on_bucket-Quiet :
    {A : Type 0} (k : LogSetServer) (m : BucketServer → M Calls A) → Quiet (on_bucket k m)
unfolding on_bucket
on_bucket-Quiet {A} k m s = go (m (k.bucket s.calls) [])
  where
    go :
        (r : Run Calls A)
        → Ends
            (λ _ t. IsKept s t)
            (λ _ t. IsKept s t)
            (elim r [
              | done a bs ↦ done a (record s { calls = wrap bs s.calls })
              | fail e bs ↦ fail e (record s { calls = wrap bs s.calls })
            ])
    go (done a bs) = record { same_object = refl; same_status = refl; same_ready = refl }
    go (fail e bs) = record { same_object = refl; same_status = refl; same_ready = refl }

pub Quiet-both :
    {B : Type 0} (m : M LogSetState (Unit {0})) (n : M LogSetState B)
    → Quiet m
    → Quiet n
    → Quiet (m >> n)
Quiet-both m n p q s =
    Ends-bind _ _ (m s) (λ _ t. n t) (p s)
      (λ _ t h.
        Ends-map _ _ _ _ (n t) (λ _ _ h'. IsKept-trans h h') (λ _ _ h'. IsKept-trans h h') (q t))

pub kept : (s : LogSetState) (c : LogCall) → IsKept s (tell c s)
kept s c = record { same_object = refl; same_status = refl; same_ready = refl }

module _ (k : LogSetServer) where
  pub sync_running-Quiet : Quiet (sync_running k)
  unfolding sync_running
  sync_running-Quiet s =
      Ends-ite _ _ (leb 1 (length s.status.available_stores)) _ _
        (λ _. on_bucket-Quiet k (λ b. sync_own_running_ann b s.log_set) s) (λ _. IsKept-refl s)
