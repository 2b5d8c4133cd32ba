-- ===== src/LogSet/Finalize/Apart.antt =====
-- The runs that leave the bucket alone.
use matrixone_operator.Base.{if◌then◌else◌, ◌≡◌, refl, ◌∙◌, Bool, true, false}
use matrixone_operator.Base.Trace.{Extends, same, more, Extends-trans, Extends-map}
use matrixone_operator.LogSet.State.{
  LogCall, read_discovery, read_sts, list_pods, sync_config, sync_volume, sync_metric, dry_run_sts,
  patch_sts, update_sts, write_gossip, orphan_pod, of_bucket, delete_owned, exists_owned,
  list_orphans, free_orphan, delete_orphan, LogSetState, tell,
}

abbrev pub is_bucket : LogCall → Bool
is_bucket (of_bucket b) = true
is_bucket read_discovery = false
is_bucket read_sts = false
is_bucket list_pods = false
is_bucket sync_config = false
is_bucket sync_volume = false
is_bucket sync_metric = false
is_bucket (dry_run_sts s) = false
is_bucket (patch_sts s) = false
is_bucket (update_sts s) = false
is_bucket (write_gossip seeds) = false
is_bucket (orphan_pod n) = false
is_bucket (delete_owned o) = false
is_bucket (exists_owned o) = false
is_bucket list_orphans = false
is_bucket (free_orphan o) = false
is_bucket (delete_orphan o) = false

-- No call concerns the bucket, and the object is as before.
pub record IsApart (s t : LogSetState) : Type 0 where
  pub calls_apart : Extends (λ c. is_bucket c ≡ false) s.calls t.calls
  pub same_object : t.log_set ≡ s.log_set

pub IsApart-refl : (s : LogSetState) → IsApart s s
IsApart-refl s = record { calls_apart = same; same_object = refl }

pub IsApart-tell :
    (s t : LogSetState) (c : LogCall) → is_bucket c ≡ false → IsApart s t → IsApart s (tell c t)
IsApart-tell s t c e a = record {
  calls_apart = more c t.calls e (IsApart.calls_apart a);
  same_object = IsApart.same_object a;
}

pub IsApart-trans : (s t u : LogSetState) → IsApart s t → IsApart t u → IsApart s u
IsApart-trans s t u a b = record {
  calls_apart = Extends-trans (IsApart.calls_apart a) (IsApart.calls_apart b);
  same_object = IsApart.same_object b ∙ IsApart.same_object a;
}

pub IsApart-any : (s t : LogSetState) → IsApart s t → Extends (λ _. Unit {0}) s.calls t.calls
IsApart-any s t a = Extends-map (λ _ _. tt) (IsApart.calls_apart a)

pub of_either :
    (P : LogSetState → Type 0) (b : Bool) (x y : Bool × LogSetState)
    → P x.1
    → P y.1
    → P (if b then x else y).1
of_either P true x y p q = p
of_either P false x y p q = q
