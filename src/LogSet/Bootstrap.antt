-- ===== src/LogSet/Bootstrap.antt =====
-- The choice of the first replicas of a log service: bootstrap of pkg/controllers/logset/bootstrap.go.
pub mod Once
use matrixone_operator.Base.{
  ltb, if◌then◌else◌, ℕ, zero, suc, ◌+◌, String, Option, none, some, List, [], ◌∷◌, ◌++◌,
}
use matrixone_operator.Base.Map.{Map, lookup, insert}
use matrixone_operator.Base.Run.{api, failed, Answer, ok, err, done, fail, M}
use matrixone_operator.Base.Int.{ℤ, pos, pos_part}

abbrev pub id_range_start : ℕ
id_range_start = 131072

abbrev pub id_range_end : ℕ
id_range_end = 262144

abbrev pub bootstrap_anno_key : String
bootstrap_anno_key = "logset.matrixorigin.io/bootstrap"

-- bootstrapReplica
pub record Replica : Type 0 where
  pub ordinal : ℤ
  pub replica_id : ℤ

-- The annotations of the LogSet in memory, and those of each update sent, the latest first.
pub record LogState : Type 0 where
  pub annotations : Map
  pub updates : List Map

-- The API server, which answers an update with the object that it keeps, and the JSON library.
pub record LogServer : Type 0 where
  pub update : List Map → Map → Answer Map
  pub marshal : List Replica → Option String
  pub unmarshal : String → Option (List Replica)

-- The loop from `i` on, with `k` rounds left.
unfoldable pub pick : ℕ → ℕ → List Replica → Option (List Replica)
pick zero i replicas = some replicas
pick (suc k) i replicas =
    let rest =
      pick k (suc i)
        (replicas ++ (record { ordinal = pos i; replica_id = pos (id_range_start + i) }) ∷ []) in
    if ltb id_range_end (id_range_start + i) then none else rest

module _ (server : LogServer) where
  -- `ctx.Update(ctx.Obj)`
  abbrev pub send_update : List Replica → M LogState (List Replica)
  send_update replicas s =
      let sent = s.annotations ∷ s.updates in
      elim (server.update s.updates s.annotations) [
        | ok kept ↦ done replicas (record { annotations = kept; updates = sent })
        | err e ↦ fail (api e) (record s { updates = sent })
      ]

  unfoldable pub record_decision : List Replica → M LogState (List Replica)
  record_decision replicas s = elim (server.marshal replicas) [
    | none ↦ fail failed s
    | some text ↦
        send_update replicas
          (record s { annotations = insert bootstrap_anno_key text s.annotations })
  ]

  -- `n` is the number of replicas of a log shard that the specification asks for.
  unfoldable pub bootstrap : ℤ → M LogState (List Replica)
  bootstrap n s = elim (lookup bootstrap_anno_key s.annotations) [
    | some previous ↦ (elim (server.unmarshal previous) [
      | none ↦ fail failed s
      | some replicas ↦ done replicas s
    ])
    | none ↦ (elim (pick (pos_part n) 0 []) [
      | none ↦ fail failed s
      | some replicas ↦ record_decision replicas s
    ])
  ]
