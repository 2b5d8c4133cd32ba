-- ===== src/LogSet/Finalize.antt =====
-- Finalize of pkg/controllers/logset/controller.go.
pub mod Apart
pub mod Gone
use matrixone_operator.Base.{if◌then◌else◌, Bool, true, false, ◌&&◌, List, [], ◌∷◌}
use matrixone_operator.Base.Run.{
  ignore_missing, failed, Answer, ok, err, done, fail, M, ◌>>=◌, ◌>>◌, pure,
}
use matrixone_operator.Bucket.Claim.{finalize_bucket}
use matrixone_operator.LogSet.State.{
  Owned, headless_service, stateful_set, discovery_service, Orphan, delete_owned, exists_owned,
  list_orphans, free_orphan, delete_orphan, LogSetState, LogSetServer, tell, call, on_bucket,
}

abbrev pub owned_objects : List Owned
owned_objects = headless_service ∷ stateful_set ∷ discovery_service ∷ []

abbrev is_ok : Answer (Unit {0}) → Bool
is_ok (ok a) = true
is_ok (err e) = false

module _ (k : LogSetServer) where
  unfoldable pub delete_all_owned : List Owned → M LogSetState (Unit {0})
  delete_all_owned [] s = done tt s
  delete_all_owned (o ∷ os) s =
      ((λ t. ignore_missing (k.owned_deleted s.calls o) t) >> delete_all_owned os)
        (tell (delete_owned o) s)

  -- Whether one of them is still there.
  unfoldable pub any_exists : List Owned → M LogSetState Bool
  any_exists [] s = done false s
  any_exists (o ∷ os) s =
      (call (exists_owned o) (λ cs. k.owned_exists cs o) >>= λ there. elim there [
        | true ↦ pure true
        | false ↦ any_exists os
      ])
        s

  -- The finalizer of a failover goes, if it is there, and so does the pod. Errors are gathered.
  unfoldable pub clean_orphan : Orphan → LogSetState → Bool × LogSetState
  clean_orphan o s =
      if o.is_kept
      then (
        is_ok (k.orphan_freed s.calls o) && is_ok (k.orphan_deleted (free_orphan o ∷ s.calls) o),
        tell (delete_orphan o) (tell (free_orphan o) s),
      )
      else (is_ok (k.orphan_deleted s.calls o), tell (delete_orphan o) s)

  unfoldable pub clean_orphans : List Orphan → Bool → LogSetState → Bool × LogSetState
  clean_orphans [] good s = (good, s)
  clean_orphans (o ∷ os) good s =
      let (cleaned, t) = clean_orphan o s in clean_orphans os (good && cleaned) t

  -- Where pods were left behind, the next reconciliation looks again.
  unfoldable pub after_orphans : List Orphan → M LogSetState Bool
  after_orphans [] s = on_bucket k (λ b. finalize_bucket b s.log_set) s
  after_orphans (o ∷ os) s =
      let (good, t) = clean_orphans (o ∷ os) true s in if good then done false t else fail failed t

  unfoldable pub when_gone : Bool → M LogSetState Bool
  when_gone true = pure false
  when_gone false = call list_orphans (λ cs. k.orphans cs) >>= after_orphans

  unfoldable pub finalize : M LogSetState Bool
  finalize = delete_all_owned owned_objects >> (any_exists owned_objects >>= when_gone)
