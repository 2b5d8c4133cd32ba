-- ===== src/Cluster/Up/Ready.antt =====
-- What it means that a cluster is up, and what its condition Ready says.
use matrixone_operator.Base.{
  IsAmong, if◌then◌else◌, length, ◌≤◌, ◌≡◌, refl, ap, subst, Bool, true, false, not, ◌&&◌, some,
  List, ◌∷◌,
}
use matrixone_operator.Base.Run.{ok, Run, M, ◌>>=◌, Ends, Ends-bind, Ends-map}
use matrixone_operator.Base.Trace.{Extends, Extends-trans, After, Only}
use matrixone_operator.Cluster.{
  Cluster, SetStatus, CnSetItem, CnGroupsStatus, Condition, ClusterStatus, MoCall, sync_log_set,
  sync_dn_set, list_cn_sets, MoServer, MoState,
}
use matrixone_operator.Cluster.Up.{
  all_groups, is_wanted, set_ready, groups_ready, ready_condition, with_conditions, holds_condition,
}
use matrixone_operator.Cluster.Up.Calls.{IsMeant}
use matrixone_operator.Cluster.Up.Groups.{ready_wanted}

module _ (k : MoServer) (m : Cluster) where
  -- What the server answered in the run from `s` to `t`.
  pub record IsSeen (s t : MoState) (ls dn : SetStatus) (items : List CnSetItem) : Type 0 where
    pub start : List MoCall
    pub middle : List MoCall
    pub before : Extends (IsMeant m) s.calls start
    pub between : Extends (IsMeant m) (sync_dn_set ∷ sync_log_set ∷ start) middle
    pub after : Extends (IsMeant m) (list_cn_sets ∷ middle) t.calls
    pub of_log_set : k.log_set start ≡ ok ls
    pub of_dn_set : k.dn_set (sync_log_set ∷ start) ≡ ok dn
    pub of_items : k.cn_sets middle ≡ ok items

  -- Where the address comes from.
  abbrev pub IsAddressed : Bool → ClusterStatus → List CnSetItem → Type 0
  IsAddressed true st items =
      (p : SetStatus) × (st.proxy ≡ some p)
      × (p.ready ≡ true)
      × (st.host ≡ p.host)
      × (st.port ≡ p.port)
  IsAddressed false st items =
      (i : CnSetItem) × IsAmong i items
      × (is_wanted m i ≡ true)
      × (st.host ≡ i.set_status.host)
      × (st.port ≡ i.set_status.port)

  -- What a run of Up that ends well says.
  pub record IsUp (s t : MoState) : Type 0 where
    pub ls : SetStatus
    pub dn : SetStatus
    pub items : List CnSetItem
    pub seen : IsSeen s t ls dn items
    pub log_set_ready : ls.ready ≡ true
    pub dn_set_ready : dn.ready ≡ true
    pub enough_groups : length (all_groups m) ≤ ready_wanted m items
    pub addressed : IsAddressed m.has_proxy t.status items
    pub is_ready : t.status.phase ≡ "Ready"

  -- Whatever happens, the calls are meant; and a run that ends well says that the cluster is up.
  abbrev pub Out : MoState → Run MoState (Unit {0}) → Type 0
  Out s r =
      Ends (λ _ t. IsUp s t × Extends (IsMeant m) s.calls t.calls)
        (λ _ t. Extends (IsMeant m) s.calls t.calls) r

  pub bind-Out :
      {A : Type 0} (J : ClusterStatus → Type 0) (f : M MoState A) (g : A → M MoState (Unit {0}))
      (s u : MoState)
      → Extends (IsMeant m) s.calls u.calls
      → J u.status
      → Only MoState.calls (λ v. J v.status) (IsMeant m) f
      → ((a : A) (t : MoState) → J t.status → Extends (IsMeant m) u.calls t.calls → Out s (g a t))
      → Out s ((f >>= g) u)
  bind-Out J f g s u e j only next =
      Ends-bind _ _ (f u) g
        (Ends-map _ (λ _ t. After MoState.calls (λ v. J v.status) (IsMeant m) u t) _ _ (f u)
          (λ _ _ a. a) (λ _ t a. Extends-trans e a.1) (only u j))
        (λ a t h. next a t h.0 h.1)

  -- The condition Ready, taken apart.
  pub ready-holds :
      (st : ClusterStatus)
      → Condition.holds (ready_condition m st) ≡ true
      → (set_ready st.log_service ≡ true)
        × (set_ready st.dn ≡ true)
        × (groups_ready st.cn_group_status ≡ true)
        × (m.has_proxy ≡ true → set_ready st.proxy ≡ true)
  unfolding ready_condition
  ready-holds st =
      go (set_ready st.log_service) (set_ready st.dn) (groups_ready st.cn_group_status) m.has_proxy
        (set_ready st.proxy)
    where
      go :
          (a b c d e : Bool)
          → Condition.holds (
              if not a
              then record { holds = false; reason = "LogServiceNotReady" }
              else if not b
              then record { holds = false; reason = "DNSetNotReady" }
              else if not c
              then record { holds = false; reason = "SomeCNSetsAreNotReady" }
              else if d && not e
              then record { holds = false; reason = "ProxySetNotReady" }
              else record { holds = true; reason = "AllSetsReady" })
            ≡ true
          → (a ≡ true) × (b ≡ true) × (c ≡ true) × (d ≡ true → e ≡ true)
      go true true true true true h = (refl, refl, refl, λ _. refl)
      go true true true true false h = cc
      go true true true false e h = (refl, refl, refl, λ x. cc)
      go true true false d e h = cc
      go true false c d e h = cc
      go false b c d e h = cc

  -- What is known of the status once it is collected.
  pub record IsCollected (ls dn : SetStatus) (cg : CnGroupsStatus) (st : ClusterStatus)
      : Type 0 where
    pub ready_is :
        (holds_condition k m st.is_ready ≡ true)
        → (ls.ready ≡ true)
          × (dn.ready ≡ true)
          × (groups_ready cg ≡ true)
          × (m.has_proxy ≡ true → set_ready st.proxy ≡ true)
          × (st.phase ≡ "Ready")

  pub collected :
      (ls dn : SetStatus) (cg : CnGroupsStatus) (st : ClusterStatus)
      → st.cn_group_status ≡ cg
      → IsCollected ls dn cg
          (with_conditions k m (record st { log_service = some ls; dn = some dn }))
  collected ls dn cg st e = record {
    ready_is = λ h.
        (let (a, b, c, d) = ready-holds (record st { log_service = some ls; dn = some dn }) h in
          (
            a,
            b,
            subst (λ g. groups_ready g ≡ true) e c,
            d,
            ap (λ x. if x then "Ready" else "NotReady") h,
          ));
  }
