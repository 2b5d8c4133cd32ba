-- ===== src/Bucket/Life/Binding.antt =====
-- What each run writes of the binding of a bucket and of its state.
use matrixone_operator.Base.{
  ◌=s◌, Bool-cases, String, ◌≡◌, refl, sym, ap, subst, ◌⊎◌, inl, inr, false, ◌||◌, Option, none,
  some, [], ◌∷◌, ◌++◌,
}
use matrixone_operator.Base.Run.{
  not_found, conflict, refused, Answer, ok, err, Run, done, fail, M, ◌>>=◌, final, Ends, Ends-bind,
  Ends-map, answer,
}
use matrixone_operator.Base.Map.{get, insert}
use matrixone_operator.Bucket.{
  any_instance_running, Bucket, list_buckets, read_log_set, update_bucket, BucketServer, Calls,
  contains, add_finalizer, remove_finalizer, unique_bucket_label, claimed_bucket, send_update,
  set_bucket_ever_running_ann,
}
use matrixone_operator.Api.LogSet.{S3Provider, LogSet}
use matrixone_operator.Bucket.{only_bucket}
use matrixone_operator.Bucket.Holders.{
  bucket_of_s3, bucket_of_answer, bucket_of, hold, let_go, mark_running, add_bucket_finalizer,
  remove_bucket_finalizer, sync_bucket_ever_running_ann,
}
use matrixone_operator.Bucket.Life.{written, asks_deletion, starts_job, Reads}

-- Every end of a run.
pub final-Ends {ℓ} :
    {A : Type ℓ} (R : Calls → Type 0) (m : Run Calls A)
    → Ends (λ _ cs. R cs) (λ _ cs. R cs) m
    → R (final m)
final-Ends R (done a s) h = h
final-Ends R (fail e s) h = h

-- A run that has written nothing yet.
pub record IsClean (cs : Calls) : Type 0 where
  pub no_write : written cs ≡ none
  pub no_deletion : asks_deletion cs ≡ false
  pub no_job : starts_job cs ≡ false

-- What a written bucket is like, if there is one.
abbrev pub Writes : (Bucket → Type 0) → Option Bucket → Type 0
Writes P none = Unit {0}
Writes P (some b) = P b

pub clean-Writes : (P : Bucket → Type 0) {cs : Calls} → IsClean cs → Writes P (written cs)
clean-Writes P c = rw (IsClean.no_write c) tt

pub claimed_bucket-Reads :
    (k : BucketServer) (b : Bucket) (s : S3Provider) (cs : Calls)
    → Reads k b
    → claimed_bucket k s cs ≡ done (some b) (list_buckets (unique_bucket_label k s) ∷ cs)
unfolding claimed_bucket
claimed_bucket-Reads k b s cs reads =
    ap (λ a. (answer a >>= only_bucket) (list_buckets (unique_bucket_label k s) ∷ cs))
      (reads cs (unique_bucket_label k s))

-- The bucket that a set's run works on.
abbrev Found : Bucket → Run Calls (Option Bucket) → Type 0
Found b r = Ends (λ o cs. IsClean cs × ((o ≡ none) ⊎ (o ≡ some b))) (λ _ cs. IsClean cs) r

bucket_of_s3-Found :
    (k : BucketServer) (b : Bucket) (s : Option S3Provider) (cs : Calls)
    → Reads k b
    → IsClean cs
    → Found b (bucket_of_s3 k s cs)
unfolding bucket_of_s3 written asks_deletion starts_job
bucket_of_s3-Found k b none cs reads c = (c, inl refl)
bucket_of_s3-Found k b (some s) cs reads c =
    subst (Found b) (sym (claimed_bucket-Reads k b s cs reads)) (still_clean c, inr refl)
  where
    still_clean : IsClean cs → IsClean (list_buckets (unique_bucket_label k s) ∷ cs)
    still_clean c = record {
      no_write = IsClean.no_write c;
      no_deletion = IsClean.no_deletion c;
      no_job = IsClean.no_job c;
    }

bucket_of-Found :
    (k : BucketServer) (b : Bucket) (namespace name : String)
    → Reads k b
    → Found b (bucket_of k namespace name [])
unfolding bucket_of bucket_of_answer written asks_deletion starts_job
bucket_of-Found k b namespace name reads = elim (Bool-cases (namespace =s "" || name =s "")) [
  | inl nameless ↦ rw nameless clean
  | inr named ↦ rw named (go (k.log_set [] namespace name))
]
  where
    clean : IsClean []
    clean = record { no_write = refl; no_deletion = refl; no_job = refl }

    asked : IsClean (read_log_set namespace name ∷ [])
    asked = record { no_write = refl; no_deletion = refl; no_job = refl }

    go : (a : Answer LogSet) → Found b (bucket_of_answer k a (read_log_set namespace name ∷ []))
    go (ok l) = bucket_of_s3-Found k b l.spec.s3 (read_log_set namespace name ∷ []) reads asked
    go (err not_found) = (asked, inl refl)
    go (err conflict) = asked
    go (err refused) = asked

-- A run that leaves the binding and the state as they are.
pub record Keeps (b : Bucket) (cs : Calls) : Type 0 where
  pub same_binding : Writes (λ b'. b'.bind_to ≡ b.bind_to) (written cs)
  pub same_state : Writes (λ b'. b'.state ≡ b.state) (written cs)
  pub no_deletion : asks_deletion cs ≡ false

Clean-Keeps : (b : Bucket) {cs : Calls} → IsClean cs → Keeps b cs
Clean-Keeps b c = record {
  same_binding = clean-Writes _ c;
  same_state = clean-Writes _ c;
  no_deletion = IsClean.no_deletion c;
}

-- Whatever the answer, an update stands in the record.
pub update-Ends :
    (R : Calls → Type 0) (k : BucketServer) (b : Bucket) (cs : Calls)
    → R (update_bucket b ∷ cs)
    → Ends (λ _ cs. R cs) (λ _ cs. R cs) (send_update k b cs)
update-Ends R k b cs r = go (k.bucket_updated cs b)
  where
    go :
        (a : Answer (Unit {0}))
        → Ends (λ _ cs. R cs) (λ _ cs. R cs) (answer a (update_bucket b ∷ cs))
    go (ok a) = r
    go (err e) = r

update-Keeps :
    (k : BucketServer) (b b' : Bucket) (cs : Calls)
    → IsClean cs
    → b'.bind_to ≡ b.bind_to
    → b'.state ≡ b.state
    → Ends (λ _ cs. Keeps b cs) (λ _ cs. Keeps b cs) (send_update k b' cs)
unfolding written asks_deletion
update-Keeps k b b' cs c e f =
    update-Ends (Keeps b) k b' cs
      (record { same_binding = e; same_state = f; no_deletion = IsClean.no_deletion c })

hold-Keeps :
    (k : BucketServer) (f : String) (b : Bucket) (cs : Calls)
    → IsClean cs
    → Ends (λ _ cs. Keeps b cs) (λ _ cs. Keeps b cs) (hold k f (some b) cs)
unfolding hold add_finalizer
hold-Keeps k f b cs c = elim (Bool-cases (contains f b.finalizers)) [
  | inl held ↦ rw held (Clean-Keeps b c)
  | inr free ↦
      rw free (update-Keeps k b (record b { finalizers = b.finalizers ++ f ∷ [] }) cs c refl refl)
]

let_go-Keeps :
    (k : BucketServer) (f : String) (b : Bucket) (cs : Calls)
    → IsClean cs
    → Ends (λ _ cs. Keeps b cs) (λ _ cs. Keeps b cs) (let_go k f (some b) cs)
unfolding let_go remove_finalizer
let_go-Keeps k f b cs c = elim (Bool-cases (contains f b.finalizers)) [
  | inl held ↦ rw held (update-Keeps k b (remove_finalizer f b) cs c refl refl)
  | inr free ↦ rw free (Clean-Keeps b c)
]

mark_running-Keeps :
    (k : BucketServer) (b : Bucket) (cs : Calls)
    → IsClean cs
    → Ends (λ _ cs. Keeps b cs) (λ _ cs. Keeps b cs) (mark_running k (some b) cs)
unfolding mark_running set_bucket_ever_running_ann
mark_running-Keeps k b cs c = elim (Bool-cases (get any_instance_running b.annotations =s "")) [
  | inl new ↦ rw new (
      update-Keeps k b (record b { annotations = insert any_instance_running "true" b.annotations })
        cs c refl refl)
  | inr old ↦ rw old (Clean-Keeps b c)
]

-- The three runs of a set that holds the bucket.
holder-Keeps :
    (k : BucketServer) (b : Bucket) (namespace name : String)
    (f : Option Bucket → M Calls (Unit {0}))
    → Reads k b
    → ((cs : Calls) → f none cs ≡ done tt cs)
    → ((cs : Calls) → IsClean cs → Ends (λ _ cs. Keeps b cs) (λ _ cs. Keeps b cs) (f (some b) cs))
    → Keeps b (final ((bucket_of k namespace name >>= f) []))
holder-Keeps k b namespace name f reads nothing some_bucket =
    final-Ends (Keeps b) ((bucket_of k namespace name >>= f) []) (
      Ends-bind (λ _ cs. Keeps b cs) (λ _ cs. Keeps b cs) (bucket_of k namespace name []) f
        (Ends-map _ _ _ (λ _ cs. Keeps b cs) (bucket_of k namespace name []) (λ o cs h. h)
          (λ e cs c. Clean-Keeps b c) (bucket_of-Found k b namespace name reads))
        after_found)
  where
    after_found :
        (o : Option Bucket) (cs : Calls)
        → IsClean cs × ((o ≡ none) ⊎ (o ≡ some b))
        → Ends (λ _ cs. Keeps b cs) (λ _ cs. Keeps b cs) (f o cs)
    after_found o cs (c, inl e) = rw e (rw (nothing cs) (Clean-Keeps b c))
    after_found o cs (c, inr e) = rw e (some_bucket cs c)

pub add_bucket_finalizer-Keeps :
    (k : BucketServer) (b : Bucket) (namespace name f : String)
    → Reads k b
    → Keeps b (final (add_bucket_finalizer k namespace name f []))
unfolding add_bucket_finalizer hold
add_bucket_finalizer-Keeps k b namespace name f reads =
    holder-Keeps k b namespace name (hold k f) reads (λ _. refl) (hold-Keeps k f b)

pub remove_bucket_finalizer-Keeps :
    (k : BucketServer) (b : Bucket) (namespace name f : String)
    → Reads k b
    → Keeps b (final (remove_bucket_finalizer k namespace name f []))
unfolding remove_bucket_finalizer let_go
remove_bucket_finalizer-Keeps k b namespace name f reads =
    holder-Keeps k b namespace name (let_go k f) reads (λ _. refl) (let_go-Keeps k f b)

pub sync_bucket_ever_running_ann-Keeps :
    (k : BucketServer) (b : Bucket) (namespace name : String)
    → Reads k b
    → Keeps b (final (sync_bucket_ever_running_ann k namespace name []))
unfolding sync_bucket_ever_running_ann mark_running
sync_bucket_ever_running_ann-Keeps k b namespace name reads =
    holder-Keeps k b namespace name (mark_running k) reads (λ _. refl) (mark_running-Keeps k b)
