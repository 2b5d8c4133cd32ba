-- ===== src/Bucket.antt =====
-- The BucketClaim, which guards the object storage of a log service, and how it is found:
-- api/core/v1alpha1/bucketclaim_types.go and bucketclaim_helpers.go.
pub mod Holders
pub mod Claim
pub mod Finalize
pub mod Life
mod Tests
use matrixone_operator.Base.{
  ◌==◌, ◌=s◌, if◌then◌else◌, ℕ, String, Bool, true, false, not, ◌&&◌, ◌||◌, Option, none, some,
  List, [], ◌∷◌, ◌++◌,
}
use matrixone_operator.Base.Map.{Map, get, insert}
use matrixone_operator.Base.Run.{failed, Answer, M, ◌>>=◌, pure, throw, answer}
use Prim.Native.String.{compare, ◌++◌ as join}
use Prim.Native.Nat.{Ordering}
use Prim.Native.Char.{code}
use matrixone_operator.Base.Int.{ℤ, pos, negsuc}
use matrixone_operator.Base.Sort.{sort}
use matrixone_operator.Api.LogSet.{S3Provider, LogSet, or_default}

abbrev pub in_use : String
in_use = "InUse"

abbrev pub released : String
released = "Released"

abbrev pub deleting : String
deleting = "Deleting"

abbrev pub any_instance_running : String
any_instance_running = "bucket.matrixorigin.io/any-instance-running"

abbrev pub data_finalizer : String
data_finalizer = "matrixorigin.io/bucket-data-finalizer"

abbrev pub cn_finalizer_prefix : String
cn_finalizer_prefix = "matrixorigin.io/CN"

abbrev pub dn_finalizer_prefix : String
dn_finalizer_prefix = "matrixorigin.io/DN"

-- BucketClaim. `label` is the value of its label BucketUniqLabel; `failure` is the reason of its
-- condition, if it has one; `is_deleted` says whether it has a deletion timestamp.
pub record Bucket : Type 0 where
  pub namespace : String
  pub name : String
  pub label : String
  pub finalizers : List String
  pub annotations : Map
  pub s3 : Option S3Provider
  pub bind_to : String
  pub state : String
  pub failure : Option String
  pub is_deleted : Bool

-- A batch job: its conditions that hold, and how many of its pods succeeded.
pub record Job : Type 0 where
  pub complete : Bool
  pub job_failed : Bool
  pub succeeded : ℕ

pub data BucketCall : Type 0 where
  list_buckets : String → BucketCall
  read_log_set : String → String → BucketCall
  create_bucket update_bucket : Bucket → BucketCall
  delete_bucket : String → BucketCall
  read_job read_config create_config create_job : BucketCall

-- The API server, the feature gate S3Reclaim and SHA-1, as hexadecimal text.
pub record BucketServer : Type 0 where
  pub s3_reclaim : Bool
  pub digest : String → String
  pub buckets : List BucketCall → String → Answer (List Bucket)
  pub log_set : List BucketCall → String → String → Answer LogSet
  pub bucket_created : List BucketCall → Bucket → Answer (Unit {0})
  pub bucket_updated : List BucketCall → Bucket → Answer (Unit {0})
  pub bucket_deleted : List BucketCall → String → Answer (Unit {0})
  pub job : List BucketCall → Answer Job
  pub config : List BucketCall → Answer (Unit {0})
  -- whether the template of the configuration map can be filled in
  pub has_template : Bool
  pub config_created : List BucketCall → Answer (Unit {0})
  pub job_created : List BucketCall → Answer (Unit {0})

-- What a run leaves behind: its calls, the latest first.
abbrev pub Calls : Type 0
Calls = List BucketCall

abbrev pub ask {ℓ} : {A : Type ℓ} → BucketCall → (Calls → Answer A) → M Calls A
ask c f cs = answer (f cs) (c ∷ cs)

unfoldable pub contains : String → List String → Bool
contains f [] = false
contains f (g ∷ gs) = g =s f || contains f gs

-- controllerutil.AddFinalizer, and whether it changes anything.
unfoldable pub add_finalizer : String → Bucket → Bucket
add_finalizer f b =
    if contains f b.finalizers then b else record b { finalizers = b.finalizers ++ f ∷ [] }

unfoldable pub remove_all : String → List String → List String
remove_all f [] = []
remove_all f (g ∷ gs) = let rest = remove_all f gs in if g =s f then rest else g ∷ rest

-- controllerutil.RemoveFinalizer
unfoldable pub remove_finalizer : String → Bucket → Bucket
remove_finalizer f b = record b { finalizers = remove_all f b.finalizers }

-- strings.HasPrefix
unfoldable pub has_prefix : String → String → Bool
has_prefix String.[] s = true
has_prefix (String.◌∷◌ c p) String.[] = false
has_prefix (String.◌∷◌ c p) (String.◌∷◌ d s) = code c == code d && has_prefix p s

-- ContainFinalizerPrefix
unfoldable pub contain_finalizer_prefix : List String → String → Bool
contain_finalizer_prefix [] prefix = false
contain_finalizer_prefix (f ∷ fs) prefix = has_prefix prefix f || contain_finalizer_prefix fs prefix

-- sort.Strings
abbrev text_order : String → String → ℤ
text_order a b = elim (compare a b) [
  | Ordering.lt ↦ negsuc 0
  | Ordering.eq ↦ pos 0
  | Ordering.gt ↦ pos 1
]

unfoldable pub sort_strings : List String → List String
sort_strings fs = sort text_order fs

-- BucketBindToMark
unfoldable pub bucket_bind_to_mark : LogSet → String
bucket_bind_to_mark l = join l.namespace (join "/" l.name)

abbrev pub only_bucket : List Bucket → M Calls (Option Bucket)
only_bucket [] = pure none
only_bucket (b ∷ []) = pure (some b)
only_bucket (b ∷ c ∷ bs) = throw failed

module _ (k : BucketServer) where
  -- UniqueBucketLabel
  unfoldable pub unique_bucket_label : S3Provider → String
  unique_bucket_label s =
      k.digest (join (or_default "" s.kind) (join "-" (join s.endpoint (join "-" s.path))))

  -- ClaimedBucket
  unfoldable pub claimed_bucket : S3Provider → M Calls (Option Bucket)
  claimed_bucket s =
      ask (list_buckets (unique_bucket_label s)) (λ cs. k.buckets cs (unique_bucket_label s))
      >>= only_bucket

  abbrev pub send_update : Bucket → M Calls (Unit {0})
  send_update b = ask (update_bucket b) (λ cs. k.bucket_updated cs b)

  -- SetBucketEverRunningAnn
  unfoldable pub set_bucket_ever_running_ann : Bucket → M Calls (Unit {0})
  set_bucket_ever_running_ann b =
      if not (get any_instance_running b.annotations =s "")
      then pure tt
      else send_update (record b { annotations = insert any_instance_running "true" b.annotations })
