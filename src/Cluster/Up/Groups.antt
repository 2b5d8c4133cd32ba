-- ===== src/Cluster/Up/Groups.antt =====
-- What the loop over the listed CNSets gathers.
use matrixone_operator.Base.{
  IsAmong, if◌then◌else◌, count_if, ℕ, suc, ◌+◌, ◌≡◌, refl, sym, ◌∙◌, subst, ◌⊎◌, inl, inr, Bool,
  true, false, ◌&&◌, Option, none, some, List, [], ◌∷◌, arith,
}
use matrixone_operator.Base.Run.{Run, M, ◌>>◌, Ends, Ends-bind, Ends-map}
use matrixone_operator.Base.Trace.{same, Extends-trans, After}
use matrixone_operator.Cluster.{
  Cluster, CnSetItem, CnGroupsStatus, ClusterStatus, delete_cn_set, MoServer, MoState, call,
}
use matrixone_operator.Cluster.Up.{is_wanted, Gathered, gather, add_item, or_first, one_if}
use matrixone_operator.Cluster.Up.Calls.{IsMeant, call-Keeps}

-- How many of the listed sets are wanted and ready.
abbrev pub ready_wanted : Cluster → List CnSetItem → ℕ
ready_wanted m items = count_if (λ i. is_wanted m i && i.set_status.ready) items

module _ (k : MoServer) (m : Cluster) where
  -- The first CN is a wanted one of those seen.
  abbrev pub IsFirst : Option CnSetItem → List CnSetItem → Type 0
  IsFirst none items = Unit {0}
  IsFirst (some i) items = IsAmong i items × (is_wanted m i ≡ true)

  IsFirst-more :
      (o : Option CnSetItem) (i : CnSetItem) (items : List CnSetItem)
      → IsFirst o items
      → IsFirst o (i ∷ items)
  IsFirst-more none i items h = h
  IsFirst-more (some f) i items h = (inr h.0, h.1)

  -- What the loop gathers, from what there was before.
  pub record IsGathered (items : List CnSetItem) (g h : Gathered) : Type 0 where
    pub same_desired :
        CnGroupsStatus.desired_groups (Gathered.status h)
        ≡ CnGroupsStatus.desired_groups (Gathered.status g)
    pub counted :
        CnGroupsStatus.ready_groups (Gathered.status h)
        ≡ CnGroupsStatus.ready_groups (Gathered.status g) + ready_wanted m items
    pub first : (h.first_cn ≡ g.first_cn) ⊎ IsFirst h.first_cn items

  IsFirst-later :
      (i : CnSetItem) (items : List CnSetItem) (g h : Gathered)
      → (h.first_cn ≡ g.first_cn) ⊎ IsFirst h.first_cn items
      → (h.first_cn ≡ g.first_cn) ⊎ IsFirst h.first_cn (i ∷ items)
  IsFirst-later i items g h (inl e) = inl e
  IsFirst-later i items g h (inr f) = inr (IsFirst-more h.first_cn i items f)

  IsFirst-here :
      (i : CnSetItem) (items : List CnSetItem) (o p : Option CnSetItem)
      → is_wanted m i ≡ true
      → (p ≡ or_first i o) ⊎ IsFirst p items
      → (p ≡ o) ⊎ IsFirst p (i ∷ items)
  IsFirst-here i items none p w (inl e) =
      inr (subst (λ q. IsFirst q (i ∷ items)) (sym e) (inl refl, w))
  IsFirst-here i items (some f) p w (inl e) = inl e
  IsFirst-here i items o p w (inr f) = inr (IsFirst-more p i items f)

  count-one :
      (b r : Bool) (n c : ℕ) → b ≡ true → n + one_if r + c ≡ n + (if b && r then suc c else c)
  count-one true true n c e = omega arith
  count-one true false n c e = omega arith
  count-one false r n c e = cc

  count-none : (b r : Bool) (n c : ℕ) → b ≡ false → n + c ≡ n + (if b && r then suc c else c)
  count-none false r n c e = refl
  count-none true r n c e = cc

  module _ (J : ClusterStatus → Type 0) where
    abbrev pub Ran {ℓ} : {A : Type ℓ} → (A → Type 0) → MoState → Run MoState A → Type 0
    Ran Q s r =
        Ends (λ a t. After MoState.calls (λ u. J u.status) (IsMeant m) s t × Q a)
          (λ _ t. After MoState.calls (λ u. J u.status) (IsMeant m) s t) r

    pub gather-Ran :
        (items : List CnSetItem) (g : Gathered) (s : MoState)
        → J s.status
        → Ran (IsGathered items g) s (gather k m items g s)
    unfolding gather
    gather-Ran [] g s j =
        ((j, same), record { same_desired = refl; counted = omega arith; first = inl refl })
    gather-Ran (i ∷ items) g s j =
        at_wanted (is_wanted m i) refl (gather-Ran items (add_item k m i g) s j)
          (λ u h. gather-Ran items g u h)
      where
        deleting : M MoState (Unit {0})
        deleting = call (delete_cn_set i.set_name) (λ cs. k.cn_set_deleted cs i.set_name)

        at_wanted :
            (b : Bool)
            → is_wanted m i ≡ b
            → Ran (IsGathered items (add_item k m i g)) s (gather k m items (add_item k m i g) s)
            → ((u : MoState) → J u.status → Ran (IsGathered items g) u (gather k m items g u))
            → Ran (IsGathered (i ∷ items) g) s (
                (elim b as (λ _. M MoState Gathered) [
                  | true ↦ gather k m items (add_item k m i g)
                  | false ↦ deleting >> gather k m items g
                ])
                  s)
        at_wanted true e ih _ =
            Ends-map _ _ _ _ (gather k m items (add_item k m i g) s)
              (λ h t p. (
                p.0,
                record {
                  same_desired = IsGathered.same_desired p.1;
                  counted =
                      IsGathered.counted p.1
                      ∙ count-one (is_wanted m i) i.set_status.ready _ (ready_wanted m items) e;
                  first = IsFirst-here i items g.first_cn h.first_cn e (IsGathered.first p.1);
                },
              ))
              (λ _ _ p. p) ih
        at_wanted false e _ ih =
            Ends-bind _ _ (deleting s) (λ _. gather k m items g)
              (call-Keeps k m J (delete_cn_set i.set_name) (λ cs. k.cn_set_deleted cs i.set_name) e
                s j)
              (λ _ u a.
                Ends-map _ _ _ _ (gather k m items g u)
                  (λ h t p. (
                    (p.0.0, Extends-trans a.1 p.0.1),
                    record {
                      same_desired = IsGathered.same_desired p.1;
                      counted =
                          IsGathered.counted p.1
                          ∙ count-none (is_wanted m i) i.set_status.ready _ (ready_wanted m items)
                              e;
                      first = IsFirst-later i items g h (IsGathered.first p.1);
                    },
                  ))
                  (λ _ t p. (p.0, Extends-trans a.1 p.1)) (ih u a.0))
