-- ===== src/LogSet/Observe/Decision.antt =====
-- What Observe decides, from the stores that it has seen.
use matrixone_operator.Base.{
  leb, ◌≢◌, ◌=s◌, =s_iff, Bool, Bool-cases, inr, String, ◌==◌, length, inl, inr, ◌≡◌, refl, sym, ap,
  ◌∙◌, not, Option, none, some, List, ◌∷◌, arith,
}
use matrixone_operator.Base.Run.{
  not_found, conflict, refused, Answer, ok, err, ◌>>=◌, ◌>>◌, pure, answer, Ends-ite,
}
use matrixone_operator.Api.LogSet.{policy_delete, policy_retain, get_pvc_retention_policy}
use matrixone_operator.Api.Pod.{Pod}
use matrixone_operator.LogSet.State.{
  StatefulSet, read_discovery, read_sts, LogSetState, LogSetServer, tell, found, found_answer,
  sync_config,
}
use matrixone_operator.Common.Failover.{FailoverStatus}
use matrixone_operator.LogSet.Observe.{
  observe_stores, with_template, sync_pods, compare_sts, choose, observe_sts, both_found, observe,
  sync_stateful_set_spec,
}
use matrixone_operator.LogSet.Observe.Quiet.{kept}
use matrixone_operator.LogSet.Observe.Seen.{
  at_sts, at_clock, failing_stores, IsSeen, IsWanted, Going, Decided,
}
use matrixone_operator.LogSet.Observe.Rest.{
  none_found, some_failing, Going-IsKept, compare_sts-Decides,
}

module _ (k : LogSetServer) (s₀ : LogSetState) where
  not_both : policy_delete ≢ policy_retain
  not_both h = ground (arith, (=s_iff policy_delete policy_retain).1 h)

  sync_stateful_set_spec-IsWanted :
      (origin : StatefulSet) (template : String)
      → IsWanted k s₀ origin template
          (record (sync_stateful_set_spec s₀.log_set origin) { template = template })
  unfolding sync_stateful_set_spec
  sync_stateful_set_spec-IsWanted origin template =
      elim (Bool-cases (get_pvc_retention_policy s₀.log_set.spec =s policy_delete)) [
        | inl e ↦ rw e (record {
          same = refl;
          deletes = λ _. refl;
          retains = λ h. absurd (not_both (sym ((=s_iff _ _).0 e) ∙ h));
          leaves = λ n _. absurd (n ((=s_iff _ _).0 e));
        })
        | inr e ↦ (elim (Bool-cases (get_pvc_retention_policy s₀.log_set.spec =s policy_retain)) [
          | inl f ↦
              rw (e, f)
                (record {
                  same = refl;
                  deletes = λ h. ground (arith, e, (=s_iff _ _).1 h);
                  retains = λ _. refl;
                  leaves = λ _ n. absurd (n ((=s_iff _ _).0 f));
                })
          | inr f ↦
              rw (e, f)
                (record {
                  same = refl;
                  deletes = λ h. ground (arith, e, (=s_iff _ _).1 h);
                  retains = λ h. ground (arith, f, (=s_iff _ _).1 h);
                  leaves = λ _ _. refl;
                })
        ])
      ]

  same_template :
      (origin : StatefulSet) → (sync_stateful_set_spec s₀.log_set origin).template ≡ origin.template
  unfolding sync_stateful_set_spec
  same_template origin = ground arith

  -- The state once the stores are observed.
  abbrev seen_at : FailoverStatus → Bool → LogSetState
  seen_at st r = record s₀ { status = st; ready = r; calls = at_clock k s₀ }

  -- The configuration is written, and the set that is wanted is compared with the one read.
  synced-Decides :
      (origin : StatefulSet) (st : FailoverStatus) (r : Bool)
      → Going k s₀ origin (seen_at st r)
      → Decided k s₀ (
          (sync_pods k (sync_stateful_set_spec s₀.log_set origin) >>= compare_sts k origin)
            (seen_at st r))
  unfolding sync_pods with_template
  synced-Decides origin st r g =
      go (k.template_of s₀.log_set (sync_stateful_set_spec s₀.log_set origin).template) refl
    where
      desired : StatefulSet
      desired = sync_stateful_set_spec s₀.log_set origin

      written : LogSetState
      written = tell sync_config (seen_at st r)

      configured :
          (template : String)
          → k.template_of s₀.log_set desired.template ≡ some template
          → (a : Answer (Unit {0})) → k.config_synced (at_clock k s₀) ≡ a
          → Decided k s₀ (
              ((answer a >> pure (record desired { template = template })) >>= compare_sts k origin)
                written)
      configured template e (err x) f = tt
      configured template e (ok u) f =
          compare_sts-Decides k s₀ origin (record desired { template = template }) written
            (Going-IsKept k s₀ origin (seen_at st r) written (kept (seen_at st r) sync_config) g)
            (λ filled m. record {
              template = template;
              sts = record desired { template = template };
              of_template = sym (ap (k.template_of s₀.log_set) (same_template origin)) ∙ e;
              of_config = f;
              wanted = sync_stateful_set_spec-IsWanted origin template;
              of_dry_run = m;
            })

      go :
          (o : Option String)
          → k.template_of s₀.log_set desired.template ≡ o
          → Decided k s₀ ((with_template k desired o >>= compare_sts k origin) (seen_at st r))
      go none e = tt
      go (some template) e = configured template e (k.config_synced (at_clock k s₀)) refl

  choose-Decides :
      (origin : StatefulSet) (st : FailoverStatus) (r : Bool)
      → IsSeen k s₀ origin (seen_at st r)
      → Decided k s₀ (choose k origin (seen_at st r))
  unfolding choose
  choose-Decides origin st r seen =
      Ends-ite _ _ (leb 1 (length (failing_stores k s₀ st))) _ _
        (λ failing. (seen, λ e. some_failing _ (ap length e) failing))
        (λ well.
          Ends-ite _ _ (not (s₀.log_set.spec.replicas == origin.replicas)) _ _
            (λ differs. (seen, none_found _ well, ground (arith, differs)))
            (λ equal. synced-Decides origin st r (seen, none_found _ well, ground (arith, equal))))

  observe_sts-Decides :
      (sts : StatefulSet)
      → k.sts (at_sts k s₀) ≡ ok sts
      → (r : Answer (List Pod)) → k.pods (read_sts ∷ (at_sts k s₀)) ≡ r
      → Decided k s₀
          ((answer r >>= observe_stores k >> choose k sts) (record s₀ { calls = (at_clock k s₀) }))
  unfolding observe_stores
  observe_sts-Decides sts h (ok pods) e = choose-Decides sts _ _ (record {
    pods = pods;
    of_sts = h;
    of_pods = e;
    same_object = refl;
    of_status = refl;
    of_ready = refl;
  })
  observe_sts-Decides sts h (err e) m = tt

  -- What a run of Observe that ends well decides. It creates the service only if the discovery
  -- service or the stateful set is missing. Otherwise its status is that of the pods that it read,
  -- its condition Ready says whether enough stores are up, and it repairs the stateful set that it
  -- read only if a store has failed for the timeout, scales it only if none has and the numbers of
  -- replicas differ, updates it only if none has, they agree and the wanted set with the server's
  -- defaults differs, and does nothing only if none of these holds, enough stores are up, none has
  -- failed, and enough updated replicas are ready. The wanted set is the one that was read with
  -- the retention policy of the specification, if that is a known one, and the template that
  -- refers to the configuration, which was written before the server filled the defaults in.
  pub observe-Decides : Decided k s₀ (observe k s₀)
  unfolding observe both_found observe_sts
  observe-Decides = discovery_cases (k.discovery s₀.calls) refl
    where
      sts_cases :
          (d : Option (Unit {0})) (r : Answer StatefulSet)
          → k.sts (at_sts k s₀) ≡ r
          → (d ≡ none → k.discovery s₀.calls ≡ err not_found)
          → Decided k s₀
              ((found_answer r >>= both_found k d) (record s₀ { calls = read_sts ∷ (at_sts k s₀) }))
      sts_cases none (ok sts) e n = inl (n refl)
      sts_cases (some d) (ok sts) e n =
          observe_sts-Decides sts e (k.pods (read_sts ∷ (at_sts k s₀))) refl
      sts_cases none (err not_found) e n = inl (n refl)
      sts_cases (some d) (err not_found) e n = inr e
      sts_cases d (err conflict) e n = tt
      sts_cases d (err refused) e n = tt

      discovery_cases :
          (r : Answer (Unit {0}))
          → k.discovery s₀.calls ≡ r
          → Decided k s₀ (
              (found_answer r >>= λ d. found read_sts (λ cs. k.sts cs) >>= both_found k d)
                (tell read_discovery s₀))
      discovery_cases (ok d) e = sts_cases (some d) (k.sts (at_sts k s₀)) refl (λ h. cc)
      discovery_cases (err not_found) e = sts_cases none (k.sts (at_sts k s₀)) refl (λ _. e)
      discovery_cases (err conflict) e = tt
      discovery_cases (err refused) e = tt
