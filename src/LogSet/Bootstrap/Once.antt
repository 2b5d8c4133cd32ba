-- ===== src/LogSet/Bootstrap/Once.antt =====
-- The replicas are chosen once: what bootstrap returns, and that a later run repeats it.
use matrixone_operator.Base.{
  ltb, leb, if◌then◌else◌, Bool-cases, ℕ, zero, suc, ◌+◌, ◌≤◌, ◌<◌, String, ◌≡◌, refl, sym, ap, ◌∙◌,
  subst, inl, inr, Bool, true, false, Option, none, some, List, [], ◌∷◌, ◌++◌, arith,
}
use matrixone_operator.Base.Map.{Map, lookup, insert, lookup-insert}
use matrixone_operator.Base.Run.{
  ApiError, api, failed, Answer, ok, err, Run, done, fail, Ends, Ends-map,
}
use matrixone_operator.Base.Int.{ℤ, pos, pos_part}
use mathlib.Core.List.{append_assoc, append-nil}
use matrixone_operator.LogSet.Bootstrap.{
  bootstrap_anno_key, Replica, LogState, LogServer, pick, send_update, record_decision, bootstrap,
}

-- The replicas of the ordinals from `i` on.
unfoldable pub replicas_from : ℕ → ℕ → List Replica
replicas_from zero i = []
replicas_from (suc k) i =
    (record { ordinal = pos i; replica_id = pos (131072 + i) }) ∷ replicas_from k (suc i)

pick_lem :
    (k i : ℕ) (acc : List Replica)
    → i ≤ 131073
    → pick k i acc ≡ (if leb (i + k) 131073 then some (acc ++ replicas_from k i) else none)
unfolding pick replicas_from
pick_lem zero i acc h = rw (fits) (ap some (sym (append-nil acc)))
  where
    fits : leb (i + 0) 131073 ≡ true
    fits = ground arith
pick_lem (suc k) i acc h = elim (Bool-cases (ltb 262144 (131072 + i))) [
  | inl e ↦ rw e (rw (too_many e) refl)
  | inr e ↦ rw e (
      pick_lem k (suc i) _ (next e)
      ∙ ap (λ m. if leb m 131073 then some ((acc ++ r ∷ []) ++ replicas_from k (suc i)) else none)
          (omega arith)
      ∙ ap (λ rs. if leb (i + suc k) 131073 then some rs else none)
          (append_assoc acc (r ∷ []) (replicas_from k (suc i))))
]
  where
    r : Replica
    r = record { ordinal = pos i; replica_id = pos (131072 + i) }

    too_many : ltb 262144 (131072 + i) ≡ true → leb (i + suc k) 131073 ≡ false
    too_many e = ground (arith, e)

    next : ltb 262144 (131072 + i) ≡ false → suc i ≤ 131073
    next e = ground (arith, e)

pick_all : (k : ℕ) → pick k 0 [] ≡ (if leb k 131073 then some (replicas_from k 0) else none)
pick_all k =
    pick_lem k 0 [] (omega arith)
    ∙ ap (λ m. if leb m 131073 then some (replicas_from k 0) else none) (omega arith)

module _ (server : LogServer) where
  -- A run that returns: it read a decision and changed nothing, or it made one and sent it.
  pub data Decided (n : ℤ) (s : LogState) (rs : List Replica) (s' : LogState) : Type 0 where
    decided_before :
        (text : String)
        → lookup bootstrap_anno_key s.annotations ≡ some text
        → server.unmarshal text ≡ some rs
        → s' ≡ s
        → Decided n s rs s'
    decided_now :
        (text : String) (kept : Map)
        → lookup bootstrap_anno_key s.annotations ≡ none
        → pos_part n ≤ 131073
        → rs ≡ replicas_from (pos_part n) 0
        → server.marshal rs ≡ some text
        → server.update s.updates (insert bootstrap_anno_key text s.annotations) ≡ ok kept
        → s' ≡ record {
          annotations = kept;
          updates = insert bootstrap_anno_key text s.annotations ∷ s.updates;
        }
        → Decided n s rs s'

  -- A run that fails, and why.
  pub data Failed (n : ℤ) (s s' : LogState) : Type 0 where
    unreadable :
        (text : String)
        → lookup bootstrap_anno_key s.annotations ≡ some text
        → server.unmarshal text ≡ none
        → s' ≡ s
        → Failed n s s'
    too_many :
        lookup bootstrap_anno_key s.annotations ≡ none
        → 131073 < pos_part n
        → s' ≡ s
        → Failed n s s'
    unwritable :
        lookup bootstrap_anno_key s.annotations ≡ none
        → server.marshal (replicas_from (pos_part n) 0) ≡ none
        → s' ≡ s
        → Failed n s s'
    update_refused :
        (e : ApiError)
        → lookup bootstrap_anno_key s.annotations ≡ none
        → server.update s.updates s'.annotations ≡ err e
        → s'.updates ≡ s'.annotations ∷ s.updates
        → Failed n s s'

  abbrev pub Outcome : ℤ → LogState → Run LogState (List Replica) → Type 0
  Outcome n s r = Ends (Decided n s) (λ _ s'. Failed n s s') r

  module _ (n : ℤ) (s : LogState) where
    read-Outcome :
        (text : String) (o : Option (List Replica))
        → lookup bootstrap_anno_key s.annotations ≡ some text
        → server.unmarshal text ≡ o
        → Outcome n s (elim o [ none ↦ fail failed s | some replicas ↦ done replicas s ])
    read-Outcome text none l e = unreadable text l e refl
    read-Outcome text (some rs) l e = decided_before text l e refl

    module _ (absent : lookup bootstrap_anno_key s.annotations ≡ none) where
      abbrev with_text : String → Map
      with_text text = insert bootstrap_anno_key text s.annotations

      send-Outcome :
          (text : String) (a : Answer Map)
          → pos_part n ≤ 131073
          → server.marshal (replicas_from (pos_part n) 0) ≡ some text
          → server.update s.updates (with_text text) ≡ a
          → Outcome n s (elim a [
            | ok kept ↦
                done
                  (replicas_from (pos_part n) 0)
                  (record { annotations = kept; updates = with_text text ∷ s.updates })
            | err e ↦
                fail
                  (api e)
                  (record { annotations = with_text text; updates = with_text text ∷ s.updates })
          ])
      send-Outcome text (ok kept) h m u = decided_now text kept absent h refl m u refl
      send-Outcome text (err e) h m u = update_refused e absent u refl

      record-Outcome :
          (o : Option String)
          → pos_part n ≤ 131073
          → server.marshal (replicas_from (pos_part n) 0) ≡ o
          → Outcome n s (elim o [
            | none ↦ fail failed s
            | some text ↦
                send_update server
                  (replicas_from (pos_part n) 0)
                  (record s { annotations = with_text text })
          ])
      record-Outcome none h m = unwritable absent m refl
      record-Outcome (some text) h m = send-Outcome text _ h m refl

      choose-Outcome :
          (b : Bool)
          → leb (pos_part n) 131073 ≡ b
          → Outcome n s (elim (if b then some (replicas_from (pos_part n) 0) else none) [
            | none ↦ fail failed s
            | some replicas ↦ record_decision server replicas s
          ])
      unfolding record_decision
      choose-Outcome true e = record-Outcome _ (ground (arith, e)) refl
      choose-Outcome false e = too_many absent (ground (arith, e)) refl

  -- Every outcome of bootstrap. It returns the replicas that the annotation of an earlier decision
  -- tells, with nothing changed, or, without one, those of the first ordinals (none for a negative
  -- number) with ids from 131072 on, once an update that adds their text to the annotations is
  -- answered. It fails only where the annotation cannot be read, more than 131073 replicas are
  -- asked for or they cannot be written as text, each with nothing changed, or where that update
  -- is refused.
  pub bootstrap-Outcome : (n : ℤ) (s : LogState) → Outcome n s (bootstrap server n s)
  unfolding bootstrap
  bootstrap-Outcome n s = go _ refl
    where
      go :
          (o : Option String)
          → lookup bootstrap_anno_key s.annotations ≡ o
          → Outcome n s (elim o [
            | some previous ↦ (elim (server.unmarshal previous) [
              | none ↦ fail failed s
              | some replicas ↦ done replicas s
            ])
            | none ↦ (elim (pick (pos_part n) 0 []) [
              | none ↦ fail failed s
              | some replicas ↦ record_decision server replicas s
            ])
          ])
      go (some text) l = read-Outcome n s text _ l refl
      go none l =
          subst
            (λ p.
              Outcome n s (elim p [
                | none ↦ fail failed s
                | some replicas ↦ record_decision server replicas s
              ]))
            (sym (pick_all (pos_part n))) (choose-Outcome n s l _ refl)

module _ (server : LogServer) (n : ℤ)
    (keeps : (us : List Map) (m kept : Map)
      → server.update us m ≡ ok kept
      → lookup bootstrap_anno_key kept ≡ lookup bootstrap_anno_key m)
    (reads_back : (text : String)
      → server.marshal (replicas_from (pos_part n) 0) ≡ some text
      → server.unmarshal text ≡ some (replicas_from (pos_part n) 0)) where
  recalls :
      (n' : ℤ) (s : LogState) (text : String) (rs : List Replica)
      → lookup bootstrap_anno_key s.annotations ≡ some text
      → server.unmarshal text ≡ some rs
      → bootstrap server n' s ≡ done rs s
  unfolding bootstrap
  recalls n' s text rs l u = rw (l, bootstrap) (rw u refl)

  repeats :
      (n' : ℤ) (s s' : LogState) (rs : List Replica)
      → Decided server n s rs s'
      → bootstrap server n' s' ≡ done rs s'
  repeats n' s s' rs (decided_before text l u e) =
      recalls n' s' text rs (ap (λ t. lookup bootstrap_anno_key t.annotations) e ∙ l) u
  repeats n' s s' rs (decided_now text kept l h r m a e) =
      recalls n' s' text rs
        (ap (λ t. lookup bootstrap_anno_key t.annotations) e
          ∙ keeps s.updates _ kept a
          ∙ lookup-insert bootstrap_anno_key bootstrap_anno_key text s.annotations)
        (subst (λ q. server.unmarshal text ≡ some q) (sym r)
          (reads_back text (subst (λ q. server.marshal q ≡ some text) r m)))

  -- Where the server keeps the annotation that it is sent and the text of the chosen replicas
  -- reads back as them, the replicas are chosen once: after a bootstrap that returns replicas, a
  -- bootstrap from the state it left, whatever number of replicas the specification asks for by
  -- then, returns the same ones and changes nothing.
  pub bootstrap-bootstrap :
      (n' : ℤ) (s : LogState)
      → Ends (λ rs s'. bootstrap server n' s' ≡ done rs s') (λ _ _. Unit {0}) (bootstrap server n s)
  bootstrap-bootstrap n' s =
      Ends-map (Decided server n s) _ (λ _ s'. Failed server n s s') _ (bootstrap server n s)
        (λ rs s' d. repeats n' s s' rs d) (λ _ _ _. tt) (bootstrap-Outcome server n s)
