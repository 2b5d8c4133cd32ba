-- ===== src/LogSet/Tests.antt =====
-- A concrete bootstrap, and the theorems at that input.
use matrixone_operator.Base.{
  ◌==◌, ◌=s◌, if◌then◌else◌, length, String, ◌≡◌, refl, sym, ap, subst, none, some, List, [], ◌∷◌,
}
use matrixone_operator.Base.Map.{Map, lookup, or_empty, insert}
use matrixone_operator.Base.Run.{ok, done, Ends}
use matrixone_operator.Base.Int.{pos}
use matrixone_operator.LogSet.Bootstrap.{
  bootstrap_anno_key, Replica, LogState, LogServer, pick, record_decision, bootstrap,
}
use matrixone_operator.LogSet.Bootstrap.Once.{
  replicas_from, Outcome, bootstrap-Outcome, bootstrap-bootstrap,
}
use matrixone_operator.Base.Run.{ok-eq}

abbrev two_replicas : List Replica
two_replicas =
    (record { ordinal = pos 0; replica_id = pos 131072 })
    ∷ (record { ordinal = pos 1; replica_id = pos 131073 })
    ∷ []

abbrev two_as_text : String
two_as_text = "[{ordinal:0,replicaId:131072},{ordinal:1,replicaId:131073}]"

-- A server that keeps what it is sent, and a text for two replicas only.
abbrev log_server : LogServer
log_server = record {
  update = λ _ m. ok m;
  marshal = λ rs. if length rs == 2 then some two_as_text else none;
  unmarshal = λ text. if text =s two_as_text then some two_replicas else none;
}

abbrev fresh : LogState
fresh = record { annotations = ("a", "b") ∷ []; updates = [] }

abbrev decided : Map
decided = ("a", "b") ∷ (bootstrap_anno_key, two_as_text) ∷ []

bootstrap_two :
    bootstrap log_server (pos 2) fresh
    ≡ done two_replicas (record { annotations = decided; updates = decided ∷ [] })
unfolding bootstrap pick record_decision lookup insert
bootstrap_two = refl

-- A later run does not look at the specification.
bootstrap_later :
    bootstrap log_server (pos 5) (record { annotations = decided; updates = [] })
    ≡ done two_replicas (record { annotations = decided; updates = [] })
unfolding bootstrap lookup
bootstrap_later = refl

reads_two_back :
    (text : String)
    → log_server.marshal (replicas_from 2 0) ≡ some text
    → log_server.unmarshal text ≡ some (replicas_from 2 0)
unfolding replicas_from
reads_two_back text e = subst (λ o. log_server.unmarshal (or_empty o) ≡ some two_replicas) e refl

keeps_annotation :
    (us : List Map) (m kept : Map)
    → log_server.update us m ≡ ok kept
    → lookup bootstrap_anno_key kept ≡ lookup bootstrap_anno_key m
keeps_annotation us m kept e = ap (lookup bootstrap_anno_key) (sym (ok-eq e))

bootstrap-Outcome_example : Outcome log_server (pos 2) fresh (bootstrap log_server (pos 2) fresh)
bootstrap-Outcome_example = bootstrap-Outcome log_server (pos 2) fresh

bootstrap-bootstrap_example :
    Ends
      (λ rs s'. bootstrap log_server (pos 5) s' ≡ done rs s')
      (λ _ _. Unit {0})
      (bootstrap log_server (pos 2) fresh)
bootstrap-bootstrap_example =
    bootstrap-bootstrap log_server (pos 2) keeps_annotation reads_two_back (pos 5) fresh
