-- ===== src/Bucket/Life/Turns.antt =====
-- What a LogSet's run, and the bucket's own, write of the binding of a bucket and of its state.
use matrixone_operator.Base.{
  ◌=s◌, Bool-cases, String, ◌≡◌, refl, sym, subst, ◌⊎◌, inl, inr, Bool, true, false, Option, none,
  some, [], ◌∷◌,
}
use matrixone_operator.Base.Run.{
  Answer, ok, err, Run, done, fail, M, ◌>>◌, pure, final, Ends, Ends-choice, Ends-bind, answer,
}
use matrixone_operator.Bucket.{
  in_use, released, deleting, Bucket, list_buckets, delete_bucket, BucketServer, Calls, ask,
  bucket_bind_to_mark, unique_bucket_label, send_update,
}
use matrixone_operator.Api.LogSet.{
  S3Provider, LogSet, policy_delete, policy_retain, get_s3_retention_policy,
}
use matrixone_operator.Bucket.Claim.{
  take_at, release_at, sync_bucket_claim, finalize_bucket, is_taken, is_target, is_held,
  target_bucket, give_up, take_bucket, release_bucket,
}
use matrixone_operator.Bucket.Life.{written, asks_deletion, starts_job, Reads}
use matrixone_operator.Bucket.Life.Binding.{
  final-Ends, IsClean, Writes, clean-Writes, claimed_bucket-Reads, update-Ends,
}

-- A LogSet binds the bucket to itself, if it writes it.
pub record Takes (l : LogSet) (b : Bucket) (cs : Calls) : Type 0 where
  pub bound :
      Writes
        (λ b'. (is_taken l b ≡ false) × (b'.bind_to ≡ bucket_bind_to_mark l) × (b'.state ≡ in_use))
        (written cs)
  pub no_deletion : asks_deletion cs ≡ false

Clean-Takes : (l : LogSet) (b : Bucket) {cs : Calls} → IsClean cs → Takes l b cs
Clean-Takes l b c = record { bound = clean-Writes _ c; no_deletion = IsClean.no_deletion c }

abbrev Both : (Calls → Type 0) → {A : Type 0} → Run Calls A → Type 0
Both R r = Ends (λ _ cs. R cs) (λ _ cs. R cs) r

listed-IsClean : (s : String) → IsClean (list_buckets s ∷ [])
unfolding written asks_deletion starts_job
listed-IsClean s = record { no_write = refl; no_deletion = refl; no_job = refl }

nothing-IsClean : IsClean []
unfolding written asks_deletion starts_job
nothing-IsClean = record { no_write = refl; no_deletion = refl; no_job = refl }

take_bucket-Takes :
    (k : BucketServer) (l : LogSet) (s : S3Provider) (b : Bucket) (cs : Calls)
    → IsClean cs
    → Both (Takes l b) (take_bucket k l s (some b) cs)
unfolding take_bucket target_bucket written asks_deletion
take_bucket-Takes k l s b cs c = elim (Bool-cases (is_taken l b)) [
  | inl taken ↦ rw taken (Clean-Takes l b c)
  | inr free ↦ (elim (Bool-cases (is_target l b)) [
    | inl target ↦ rw free (rw target (Clean-Takes l b c))
    | inr other ↦ rw free (
        rw other (
          update-Ends (Takes l b) k (target_bucket l b) cs
            (record { bound = (free, refl, refl); no_deletion = IsClean.no_deletion c })))
  ])
]

take_at-Takes :
    (k : BucketServer) (l : LogSet) (s : Option S3Provider) (b : Bucket)
    → Reads k b
    → Both (Takes l b) (take_at k l s [])
unfolding take_at
take_at-Takes k l none b reads = Clean-Takes l b nothing-IsClean
take_at-Takes k l (some s) b reads =
    subst
      (λ r.
        Both (Takes l b) (elim r [ done a cs ↦ take_bucket k l s a cs | fail e cs ↦ fail e cs ]))
      (sym (claimed_bucket-Reads k b s [] reads))
      (take_bucket-Takes k l s b (list_buckets (unique_bucket_label k s) ∷ []) (listed-IsClean _))

pub sync_bucket_claim-Takes :
    (k : BucketServer) (l : LogSet) (b : Bucket)
    → Reads k b
    → Takes l b (final (sync_bucket_claim k l []))
unfolding sync_bucket_claim
sync_bucket_claim-Takes k l b reads = final-Ends (Takes l b) (sync_bucket_claim k l []) (
    Ends-choice _ _ k.s3_reclaim (take_at k l l.spec.s3) (pure tt) []
      (λ _. take_at-Takes k l l.spec.s3 b reads) (λ _. Clean-Takes l b nothing-IsClean))

-- A LogSet gives up its own bucket, or one of none, that no set holds, if it writes it.
pub record Gives (l : LogSet) (b : Bucket) (cs : Calls) : Type 0 where
  pub freed :
      Writes
        (λ b'.
          (is_taken l b ≡ false)
          × (is_held b ≡ false)
          × (b'.bind_to ≡ "")
          × ((b'.state ≡ released) ⊎ (b'.state ≡ deleting)))
        (written cs)

Clean-Gives : (l : LogSet) (b : Bucket) {cs : Calls} → IsClean cs → Gives l b cs
Clean-Gives l b c = record { freed = clean-Writes _ c }

module _ (k : BucketServer) (l : LogSet) (b : Bucket) (own : is_taken l b ≡ false)
    (unheld : is_held b ≡ false) where
  -- The update, with or without the deletion.
  update-Gives :
      (b' : Bucket) (cs : Calls) (m : M Calls Bool)
      → b'.bind_to ≡ ""
      → (b'.state ≡ released) ⊎ (b'.state ≡ deleting)
      → ((ds : Calls) → Gives l b ds → Both (Gives l b) (m ds))
      → Both (Gives l b) ((send_update k b' >> m) cs)
  unfolding written
  update-Gives b' cs m e f next =
      Ends-bind _ _ (send_update k b' cs) (λ _ ds. m ds)
        (update-Ends (Gives l b) k b' cs (record { freed = (own, unheld, e, f) }))
        (λ _ ds g. next ds g)

  delete-Gives :
      (cs : Calls)
      → Gives l b cs
      → Both
          (Gives l b)
          ((ask (delete_bucket b.name) (λ cs. k.bucket_deleted cs b.name) >> pure true) cs)
  unfolding written
  delete-Gives cs g = go (k.bucket_deleted cs b.name)
    where
      go :
          (a : Answer (Unit {0}))
          → Both (Gives l b) ((answer a >> pure true) (delete_bucket b.name ∷ cs))
      go (ok a) = record { freed = Gives.freed g }
      go (err e) = record { freed = Gives.freed g }

  give_up-Gives :
      (policy : Option String) (cs : Calls) → IsClean cs → Both (Gives l b) (give_up k policy b cs)
  unfolding give_up
  give_up-Gives none cs c = Clean-Gives l b c
  give_up-Gives (some policy) cs c =
      Ends-choice _ _ (policy =s policy_retain) _ _ cs
        (λ _.
          update-Gives (record b { state = released; bind_to = "" }) cs (pure true) refl (inl refl)
            (λ ds g. g))
        (λ _.
          Ends-choice _ _ (policy =s policy_delete) _ _ cs
            (λ _.
              update-Gives (record b { state = deleting; bind_to = "" }) cs _ refl (inr refl)
                delete-Gives)
            (λ _. Clean-Gives l b c))

module _ (k : BucketServer) (l : LogSet) (b : Bucket) where
  release_bucket-Gives :
      (cs : Calls) → IsClean cs → Both (Gives l b) (release_bucket k l (some b) cs)
  unfolding release_bucket
  release_bucket-Gives cs c =
      Ends-choice _ _ (is_taken l b) _ _ cs (λ _. Clean-Gives l b c)
        (λ own.
          Ends-choice _ _ (is_held b) _ _ cs (λ _. Clean-Gives l b c)
            (λ unheld. give_up-Gives k l b own unheld (get_s3_retention_policy l.spec) cs c))

  release_at-Gives : (s : Option S3Provider) → Reads k b → Both (Gives l b) (release_at k l s [])
  unfolding release_at
  release_at-Gives none reads = Clean-Gives l b nothing-IsClean
  release_at-Gives (some s) reads =
      subst
        (λ r.
          Both (Gives l b) (elim r [ done a cs ↦ release_bucket k l a cs | fail e cs ↦ fail e cs ]))
        (sym (claimed_bucket-Reads k b s [] reads))
        (release_bucket-Gives (list_buckets (unique_bucket_label k s) ∷ []) (listed-IsClean _))

  pub finalize_bucket-Gives : Reads k b → Gives l b (final (finalize_bucket k l []))
  unfolding finalize_bucket
  finalize_bucket-Gives reads = final-Ends (Gives l b) (finalize_bucket k l []) (
      Ends-choice _ _ k.s3_reclaim (release_at k l l.spec.s3) (pure true) []
        (λ _. release_at-Gives l.spec.s3 reads) (λ _. Clean-Gives l b nothing-IsClean))
