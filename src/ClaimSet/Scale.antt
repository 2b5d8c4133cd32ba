-- ===== src/ClaimSet/Scale.antt =====
-- Scaling of a CNClaimSet: scale, scaleOut, scaleIn, makeClaim and getClaimedPod of
-- pkg/controllers/cnclaimset/controller.go. Replica counts are numbers that an int32 holds, and not
-- negative.
pub mod Read
pub mod In
pub mod Made
pub mod Out
pub mod Plan
use Prim.Native.String.{◌++◌ as concat}
use matrixone_operator.Base.{
  ltb, leb, ◌=s◌, if◌then◌else◌, length, take, drop, count_if, ℕ, ◌+◌, ◌-◌, min, String, Bool, true,
  false, not, ◌&&◌, ◌||◌, Option, none, some, List, [], ◌∷◌, ◌++◌, map,
}
use matrixone_operator.Base.Map.{Map, get, insert}
use matrixone_operator.Base.Run.{
  not_found, conflict, refused, api, panicked, out_of_fuel, Answer, ok, err, done, fail, M, ◌>>=◌,
  ◌>>◌, pure, throw,
}
use matrixone_operator.Api.Keys.{claim_set_name_label, claim_instance_id_label}
use matrixone_operator.Api.Claim.{
  PodRef, ClaimSpec, Claim, is_lost_phase, is_ready, is_updated, no_status, ClaimSet, ClaimTemplate,
}
use matrixone_operator.Api.Pod.{Pod}
use matrixone_operator.Base.Sort.{sort}
use matrixone_operator.ClaimSet.Order.{ClaimAndPod, claim_deletion_order}
use matrixone_operator.ClaimSet.Ids.{gen_available_ids}
use matrixone_operator.ClaimSet.State.{
  create_claim, delete_claim, get_pod, SetState, Server, perform, tolerant,
}

-- `if tpl.Spec.OwnerName == nil { tpl.Spec.OwnerName = &cs.Name }`
abbrev default_owner : String → Option String → Option String
default_owner name none = some name
default_owner name (some owner) = some owner

-- The labels of the template with the two of the claim written into them.
abbrev pub written_labels : ClaimSet → String → Map → Map
written_labels cs id m =
    insert claim_instance_id_label id (insert claim_set_name_label (ClaimSet.name cs) m)

unfoldable pub claim_with : ClaimSet → String → Map → Claim
claim_with cs id labels = record {
  name = concat (concat (ClaimSet.name cs) "-") id;
  labels = labels;
  annotations = ClaimTemplate.annotations (ClaimSet.template cs);
  created = 0;
  is_deleted = false;
  spec = record tpl { owner_name = default_owner (ClaimSet.name cs) tpl.owner_name };
  status = no_status;
}
  where
    tpl : ClaimSpec
    tpl = ClaimTemplate.spec (ClaimSet.template cs)

abbrev pub set_template_labels : Map → ClaimSet → ClaimSet
set_template_labels m cs = record cs { template = record tpl { labels = some m } }
  where
    tpl : ClaimTemplate
    tpl = cs.template

-- The claim, and the set: `labels := tpl.Labels` is the map of the set's own template, and the writes
-- go into it. A write into a nil map panics.
unfoldable pub make_claim : String → M SetState Claim
make_claim id s = elim s.set.template.labels [
  | none ↦ fail panicked s
  | some m ↦ done (claim_with s.set id (written_labels s.set id m)) (record s {
    set = set_template_labels (written_labels (SetState.set s) id m) (SetState.set s);
  })
]

abbrev pub instance_id : Claim → String
instance_id c = get claim_instance_id_label c.labels

-- The instance ids that scaleOut must not give again.
unfoldable pub used_ids : SetState → List String
used_ids s = map instance_id s.owned ++ map instance_id s.lost

abbrev drawn_to : ℕ → M SetState (Unit {0})
drawn_to n s = done tt (record s { drawn = n })

abbrev pub set_owned : List Claim → M SetState (Unit {0})
set_owned cs s = done tt (record s { owned = cs })

abbrev has_source : Option PodRef → Bool
has_source none = false
has_source (some r) = true

-- `c.Spec.SourcePod != nil`
unfoldable pub is_migrating : Claim → Bool
is_migrating c = has_source c.spec.source_pod

-- What is deleted first: sorted, unless all of it is deleted.
unfoldable pub deletion_queue : ℕ → List ClaimAndPod → List ClaimAndPod
deletion_queue count cps = if leb (length cps) count then cps else sort claim_deletion_order cps

-- One surge replica rolls the outdated claims out.
unfoldable pub with_surge : ℕ → ℕ → ℕ → ℕ
with_surge updated outdated desired =
    if leb desired (updated + outdated) && ltb updated desired then desired + 1 else desired

abbrev pub with_labels : Map → Claim → Claim
with_labels m c = record c { labels = m }

module _ (k : Server) where
  -- The claims made so far have the template's map of labels as their own, unless the client gave
  -- them another.
  abbrev pub share : Map → List Claim → List Claim
  share m made = if k.shares_labels then map (with_labels m) made else made

  abbrev pub set_made : List Claim → List Claim → M SetState (Unit {0})
  set_made before made s = done tt (record s { owned = before ++ made })

  -- The answer of the server is written into the template's map as well.
  abbrev pub shared_set : Claim → ClaimSet → ClaimSet
  shared_set created cs = if k.shares_labels then set_template_labels created.labels cs else cs

  abbrev pub keep_answer : Claim → M SetState (Unit {0})
  keep_answer created s = done tt (record s { set = shared_set created (SetState.set s) })

  -- The loop over the ids: `before` are the claims that were owned before it, `made` those that it
  -- has added.
  unfoldable pub create_all : List Claim → List Claim → List String → M SetState (Unit {0})
  create_all before made [] = pure tt
  create_all before made (id ∷ ids) = do
    claim ← make_claim id
    set_made before (share claim.labels made)
    created ← λ s. perform (create_claim claim) (k.create s.calls claim) s
    keep_answer created
    let more = share created.labels (share claim.labels made ++ created ∷ [])
    set_made before more
    create_all before more ids

  abbrev create_drawn : Option (List String × ℕ) → M SetState (Unit {0})
  create_drawn none = throw out_of_fuel
  create_drawn (some (ids, n)) = do drawn_to n; λ s. create_all s.owned [] ids s

  unfoldable pub scale_out : ℕ → ℕ → M SetState (Unit {0})
  unfolding create_all
  scale_out fuel count s =
      create_drawn (gen_available_ids k.sample fuel count s.drawn (used_ids s)) s

  abbrev pub absent_pod : String → Answer Pod → M SetState (Option Pod)
  absent_pod name (ok p) s = done (some p) (record s { calls = get_pod name ∷ s.calls })
  absent_pod name (err not_found) s = done none (record s { calls = get_pod name ∷ s.calls })
  absent_pod name (err conflict) s =
      fail (api conflict) (record s { calls = get_pod name ∷ s.calls })
  absent_pod name (err refused) s = fail (api refused) (record s { calls = get_pod name ∷ s.calls })

  unfoldable pub get_claimed_pod : Claim → M SetState (Option Pod)
  get_claimed_pod c s =
      if c.spec.pod_name =s "" || is_lost_phase c.status.phase
      then done none s
      else absent_pod c.spec.pod_name (k.pod s.calls c.spec.pod_name) s

  -- The first loop of scaleIn: the claims with their pods, and those that are migrating.
  unfoldable pub collect : List Claim → M SetState (List ClaimAndPod × List Claim)
  collect [] = pure ([], [])
  collect (c ∷ cs) = elim (is_migrating c) [
    | true ↦ do rest ← collect cs; pure (rest.0, c ∷ rest.1)
    | false ↦ do
      pod ← get_claimed_pod c
      rest ← collect cs
      pure (record { claim = c; pod = pod } ∷ rest.0, rest.1)
  ]

  -- The loop that deletes the first ones.
  unfoldable pub delete_claims : List ClaimAndPod → M SetState (Unit {0})
  delete_claims [] = pure tt
  delete_claims (c ∷ cs) =
      λ s. (do tolerant (delete_claim c.claim) (k.delete s.calls c.claim); delete_claims cs) s

  -- `collect` over the owned claims of the state.
  abbrev collect_owned : M SetState (List ClaimAndPod × List Claim)
  collect_owned s = collect s.owned s

  -- scaleIn after its first loop.
  unfoldable pub delete_first : ℕ → List ClaimAndPod × List Claim → M SetState (Unit {0})
  unfolding deletion_queue delete_claims
  delete_first count parts = do
    let queue = deletion_queue count parts.0
    let number = min count (length parts.0)
    delete_claims (take number queue)
    set_owned (map (λ c. c.claim) (drop number queue) ++ parts.1)

  unfoldable pub scale_in : ℕ → M SetState (Unit {0})
  unfolding collect delete_first
  scale_in count = do parts ← collect_owned; delete_first count parts

  -- Both branches call scaleOut; in the second the count is negative, so that its loop makes no
  -- round, as with the truncated difference here.
  unfoldable pub scale_to : ℕ → ℕ → ℕ → M SetState (Unit {0})
  unfolding scale_out
  scale_to fuel desired current =
      if ltb current desired
      then scale_out fuel (desired - current)
      else if ltb desired current
      then scale_out fuel (desired - current)
      else pure tt

  -- `scale`: too many ready claims are scaled in, else the set moves to its replica count.
  unfoldable pub scale : ℕ → M SetState (Unit {0})
  unfolding scale_in scale_to with_surge
  scale fuel = λ s.
      let updated = count_if (λ c. is_ready c && is_updated c) s.owned in
      let outdated = count_if (λ c. is_ready c && not (is_updated c)) s.owned in
      let current = length s.owned in
      let desired = s.set.replicas in
      if ltb desired (updated + outdated)
      then scale_in (current - desired) s
      else scale_to fuel (with_surge updated outdated desired) current s
