-- ===== src/Bucket/Holders.antt =====
-- How a CNSet or a DNSet holds the bucket of its LogSet: AddBucketFinalizer, RemoveBucketFinalizer and
-- SyncBucketEverRunningAnn of api/core/v1alpha1/bucketclaim_helpers.go.
use matrixone_operator.Base.{◌=s◌, if◌then◌else◌, String, ◌||◌, Option, none, some, ◌∷◌}
use matrixone_operator.Base.Run.{
  not_found, conflict, refused, api, failed, Answer, ok, err, fail, M, ◌>>=◌, pure, throw,
}
use matrixone_operator.Bucket.{
  Bucket, read_log_set, BucketServer, Calls, contains, add_finalizer, remove_finalizer,
  claimed_bucket, send_update, set_bucket_ever_running_ann,
}
use matrixone_operator.Api.LogSet.{S3Provider, LogSet, LogSetSpec}

module _ (k : BucketServer) where
  -- The bucket of the LogSet of that name, which may be gone, or keep its data elsewhere.
  unfoldable pub bucket_of_s3 : Option S3Provider → M Calls (Option Bucket)
  bucket_of_s3 none = pure none
  bucket_of_s3 (some s) = claimed_bucket k s

  unfoldable pub bucket_of_answer : Answer LogSet → M Calls (Option Bucket)
  bucket_of_answer (ok l) = bucket_of_s3 (LogSetSpec.s3 (LogSet.spec l))
  bucket_of_answer (err not_found) = pure none
  bucket_of_answer (err conflict) = throw (api conflict)
  bucket_of_answer (err refused) = throw (api refused)

  unfoldable pub bucket_of : String → String → M Calls (Option Bucket)
  bucket_of namespace name cs =
      if namespace =s "" || name =s ""
      then fail failed cs
      else bucket_of_answer (k.log_set cs namespace name) (read_log_set namespace name ∷ cs)

  -- Both updates are sent only where the finalizers change.
  unfoldable pub hold : String → Option Bucket → M Calls (Unit {0})
  hold f none = pure tt
  hold f (some b) = if contains f b.finalizers then pure tt else send_update k (add_finalizer f b)

  unfoldable pub let_go : String → Option Bucket → M Calls (Unit {0})
  let_go f none = pure tt
  let_go f (some b) =
      if contains f b.finalizers then send_update k (remove_finalizer f b) else pure tt

  unfoldable pub mark_running : Option Bucket → M Calls (Unit {0})
  mark_running none = pure tt
  mark_running (some b) = set_bucket_ever_running_ann k b

  unfoldable pub add_bucket_finalizer : String → String → String → M Calls (Unit {0})
  add_bucket_finalizer namespace name f = bucket_of namespace name >>= hold f

  unfoldable pub remove_bucket_finalizer : String → String → String → M Calls (Unit {0})
  remove_bucket_finalizer namespace name f = bucket_of namespace name >>= let_go f

  unfoldable pub sync_bucket_ever_running_ann : String → String → M Calls (Unit {0})
  sync_bucket_ever_running_ann namespace name = bucket_of namespace name >>= mark_running
