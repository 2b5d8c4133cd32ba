-- ===== src/Cluster/Up/Publish.antt =====
-- The end of Up: the address of a cluster that is ready.
use matrixone_operator.Base.{
  leb, length, ℕ, ◌≤◌, ◌≡◌, refl, sym, subst, Bool, true, false, Option, none, some, List, arith,
}
use matrixone_operator.Base.Run.{resync, M, throw}
use matrixone_operator.Base.Trace.{Extends}
use matrixone_operator.Cluster.{Cluster, SetStatus, CnSetItem, CnGroupsStatus, MoServer, MoState}
use matrixone_operator.Cluster.Up.{
  all_groups, set_ready, groups_ready, publish, conclude, set_address, address_from,
  address_from_cn, holds_condition,
}
use matrixone_operator.Cluster.Up.Calls.{IsMeant}
use matrixone_operator.Cluster.Up.Groups.{ready_wanted, IsFirst}
use matrixone_operator.Cluster.Up.Ready.{IsSeen, IsAddressed, Out, IsCollected}

module _ (k : MoServer) (m : Cluster) where
  -- The address of a cluster that is ready.
  publish-Out :
      (s t : MoState) (ls dn : SetStatus) (items : List CnSetItem) (first : Option CnSetItem)
      → IsSeen k m s t ls dn items
      → Extends (IsMeant m) s.calls t.calls
      → IsFirst k m first items
      → ls.ready ≡ true
      → dn.ready ≡ true
      → length (all_groups m) ≤ ready_wanted m items
      → (m.has_proxy ≡ true → set_ready t.status.proxy ≡ true)
      → t.status.phase ≡ "Ready"
      → Out k m s (publish k m first t)
  publish-Out s t ls dn items first seen e f log_ready dn_ready enough p phase =
      at_proxy m.has_proxy refl
    where
      up_with :
          (a : SetStatus)
          → IsAddressed k m m.has_proxy (record t.status { host = a.host; port = a.port }) items
          → Out k m s (set_address k m a t)
      up_with a h = (
        record {
          ls = ls;
          dn = dn;
          items = items;
          seen = record {
            start = seen.start;
            middle = seen.middle;
            before = seen.before;
            between = seen.between;
            after = seen.after;
            of_log_set = seen.of_log_set;
            of_dn_set = seen.of_dn_set;
            of_items = seen.of_items;
          };
          log_set_ready = log_ready;
          dn_set_ready = dn_ready;
          enough_groups = enough;
          addressed = h;
          is_ready = phase;
        },
        e,
      )

      from_proxy :
          m.has_proxy ≡ true
          → (o : Option SetStatus) → t.status.proxy ≡ o
          → Out k m s (address_from k m o t)
      from_proxy on none eq = e
      from_proxy on (some a) eq = up_with a (
          subst (λ b. IsAddressed k m b (record t.status { host = a.host; port = a.port }) items)
            (sym on) (a, eq, subst (λ o. set_ready o ≡ true) eq (p on), refl, refl))

      from_first :
          m.has_proxy ≡ false
          → (o : Option CnSetItem) → IsFirst k m o items
          → Out k m s (address_from_cn k m o t)
      from_first off none g = e
      from_first off (some i) g = up_with i.set_status (
          subst
            (λ b.
              IsAddressed k m b
                (record t.status { host = i.set_status.host; port = i.set_status.port }) items)
            (sym off) (i, g.0, g.1, refl, refl))

      at_proxy :
          (b : Bool)
          → m.has_proxy ≡ b
          → Out k m s (
              (elim b as (λ _. M MoState (Unit {0})) [
                | true ↦ address_from k m t.status.proxy
                | false ↦ address_from_cn k m first
              ])
                t)
      at_proxy true on = from_proxy on t.status.proxy refl
      at_proxy false off = from_first off first f

  pub conclude-Out :
      (s t : MoState) (ls dn : SetStatus) (items : List CnSetItem) (first : Option CnSetItem)
      (cg : CnGroupsStatus)
      → IsSeen k m s t ls dn items
      → Extends (IsMeant m) s.calls t.calls
      → IsFirst k m first items
      → cg.desired_groups ≡ length (all_groups m)
      → cg.ready_groups ≡ ready_wanted m items
      → IsCollected k m ls dn cg t.status
      → Out k m s (conclude k m first t)
  unfolding conclude
  conclude-Out s t ls dn items first cg seen e f desired ready c =
      at_ready (holds_condition k m t.status.is_ready) (IsCollected.ready_is c)
    where
      at_ready :
          (b : Bool)
          → (b ≡ true
              → (ls.ready ≡ true)
                × (dn.ready ≡ true)
                × (groups_ready cg ≡ true)
                × (m.has_proxy ≡ true → set_ready t.status.proxy ≡ true)
                × (t.status.phase ≡ "Ready"))
          → Out k m s (
              (elim b as (λ _. M MoState (Unit {0})) [
                | true ↦ publish k m first
                | false ↦ throw (resync 15)
              ])
                t)
      at_ready false h = e
      at_ready true h =
          (let (a, b, enough, p, phase) = h refl in
            publish-Out s t ls dn items first seen e f a b (at_least _ _ enough desired ready) p
              phase)
        where
          at_least :
              (n r : ℕ)
              → leb n r ≡ true
              → n ≡ length (all_groups m)
              → r ≡ ready_wanted m items
              → length (all_groups m) ≤ ready_wanted m items
          at_least n r h d c = ground (arith, h, d, c)
