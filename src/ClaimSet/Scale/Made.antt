-- ===== src/ClaimSet/Scale/Made.antt =====
-- makeClaim, and the loop of scaleOut that creates the claims.
use Prim.Native.String.{◌++◌ as concat}
use matrixone_operator.Base.Map.{Map, insert, lookup, lookup-insert}
use matrixone_operator.Api.Keys.{claim_set_name_label, claim_instance_id_label}
use matrixone_operator.Base.{
  arith, ◌=s◌, Bool-cases, false, Option, none, some, length, suc, ◌+◌, String, ◌≡◌, refl, sym, ap,
  ◌∙◌, subst, inl, inr, List, [], ◌∷◌, ◌++◌, map,
}
use mathlib.Core.List.{reverse, reverse-cons, append_assoc, append-nil}
use matrixone_operator.Base.Run.{Ends, Ends-map}
use matrixone_operator.Api.Claim.{Claim, ClaimSet, ClaimTemplate}
use matrixone_operator.ClaimSet.State.{Call, create_claim, SetState, Server, called, perform-Ends}
use matrixone_operator.ClaimSet.Scale.{
  make_claim, claim_with, written_labels, with_labels, share, shared_set, create_all,
}

-- The claims that a history of calls asks the server to create, the latest first.
abbrev created_by : Call → List Claim → List Claim
created_by (create_claim c) cs = c ∷ cs
created_by _ cs = cs

unfoldable pub creations : List Call → List Claim
creations [] = []
creations (c ∷ cs) = created_by c (creations cs)

abbrev labels_or_none : Option Map → Map
labels_or_none none = []
labels_or_none (some m) = m

abbrev template_labels : ClaimSet → Map
template_labels cs = labels_or_none cs.template.labels

-- A claim that is made for an id; `base` are the labels of the set's template. The other labels are
-- those of the template, unless the client writes into the template's map.
pub record IsMade (k : Server) (cs : ClaimSet) (base : Map) (id : String) (c : Claim) : Type 0 where
  pub name : c.name ≡ concat (concat cs.name "-") id
  pub instance : lookup claim_instance_id_label c.labels ≡ some id
  pub set_name : lookup claim_set_name_label c.labels ≡ some cs.name
  pub others :
      k.shares_labels ≡ false
      → (key : String) → (claim_instance_id_label =s key) ≡ false
      → (claim_set_name_label =s key) ≡ false
      → lookup key c.labels ≡ lookup key base
  pub annotations : c.annotations ≡ cs.template.annotations
  pub spec :
      c.spec ≡ record (ClaimTemplate.spec (ClaimSet.template cs)) { owner_name = c.spec.owner_name }
  pub default_owner : cs.template.spec.owner_name ≡ none → c.spec.owner_name ≡ some cs.name
  pub own_owner : (o : String) → cs.template.spec.owner_name ≡ some o → c.spec.owner_name ≡ some o

abbrev pub AreMade : Server → ClaimSet → Map → List String → List Claim → Type 0
AreMade k cs base [] [] = Unit {0}
AreMade k cs base [] (c ∷ more) = ⊥
AreMade k cs base (id ∷ ids) [] = ⊥
AreMade k cs base (id ∷ ids) (c ∷ more) = IsMade k cs base id c × AreMade k cs base ids more

-- What a run of creations has done, on success: one claim more for each id, in order. Of the set only
-- the labels of its template may have changed.
pub record Created (k : Server) (ids : List String) (s t : SetState) : Type 0 where
  pub claims : List Claim
  pub made : AreMade k s.set (template_labels s.set) ids claims
  pub asked : creations t.calls ≡ reverse claims ++ creations s.calls
  pub more : (new : List Claim) × (t.owned ≡ s.owned ++ new) × (length new ≡ length ids)
  pub lost : t.lost ≡ s.lost
  pub set :
      (labels : Option Map) × (t.set ≡ record (SetState.set s) {
        template = record (ClaimSet.template (SetState.set s)) { labels = labels };
      })

creations_push :
    (c : Claim) (cs : List Claim) (calls : List Call)
    → reverse cs ++ creations (create_claim c ∷ calls) ≡ reverse (c ∷ cs) ++ creations calls
unfolding creations
creations_push c cs calls =
    sym (append_assoc (reverse cs) (c ∷ []) (creations calls))
    ∙ ap (λ l. l ++ creations calls) (sym (reverse-cons c cs))

abbrev relabel : Option Map → ClaimSet → ClaimSet
relabel labels cs = record cs { template = record tpl { labels = labels } }
  where
    tpl : ClaimTemplate
    tpl = cs.template

length-map : {A B : Type 0} (f : A → B) (xs : List A) → length (map f xs) ≡ length xs
length-map f [] = refl
length-map f (x ∷ xs) = ap suc (length-map f xs)

length-added : (xs : List Claim) (x : Claim) → length (xs ++ x ∷ []) ≡ suc (length xs)
length-added [] x = refl
length-added (y ∷ xs) x = ap suc (length-added xs x)

module _ (k : Server) where
  length-share : (m : Map) (cs : List Claim) → length (share k m cs) ≡ length cs
  length-share m cs = elim (Bool-cases k.shares_labels) [
    | inl e ↦ rw e (length-map (with_labels m) cs)
    | inr e ↦ rw e refl
  ]

  -- For a set whose template may get other labels as the loop goes on.
  module _ (cs : ClaimSet) (base : Map) where
    -- Unless the client writes into them, the labels agree with the ones at first but for two.
    abbrev Agrees : Option Map → Type 0
    Agrees labels =
        k.shares_labels ≡ false
        → (key : String) → (claim_instance_id_label =s key) ≡ false
        → (claim_set_name_label =s key) ≡ false
        → lookup key (labels_or_none labels) ≡ lookup key base

    claim_with-IsMade :
        (id : String) (m : Map)
        → Agrees (some m)
        → IsMade k cs base id (claim_with cs id (written_labels cs id m))
    unfolding claim_with
    claim_with-IsMade id m agrees = record {
      name = refl;
      instance =
          lookup-insert claim_instance_id_label claim_instance_id_label id
            (insert claim_set_name_label cs.name m);
      set_name =
          lookup-insert claim_instance_id_label claim_set_name_label id
            (insert claim_set_name_label cs.name m)
          ∙ lookup-insert claim_set_name_label claim_set_name_label cs.name m;
      others = λ off key a b.
          lookup-insert claim_instance_id_label key id (insert claim_set_name_label cs.name m)
          ∙ rw a (lookup-insert claim_set_name_label key cs.name m ∙ rw b (agrees off key a b));
      annotations = refl;
      spec = refl;
      default_owner = λ e. rw e refl;
      own_owner = λ o e. rw e refl;
    }

    shared_set-relabel :
        (x : Claim) (m : Map)
        → (labels : Option Map) × (shared_set k x (relabel (some m) cs) ≡ relabel labels cs)
          × (k.shares_labels ≡ false → labels ≡ some m)
    shared_set-relabel x m = elim (Bool-cases k.shares_labels) [
      | inl e ↦ rw e (some x.labels, refl, λ f. ground (arith, f))
      | inr e ↦ rw e (some m, refl, λ _. refl)
    ]

    -- What the loop has done from a state on, when it had made some claims before.
    record Grown (before made : List Claim) (ids : List String) (s t : SetState) : Type 0 where
      claims : List Claim
      made_all : AreMade k cs base ids claims
      asked : creations t.calls ≡ reverse claims ++ creations s.calls
      all : (new : List Claim) × (t.owned ≡ before ++ new) × (length new ≡ length made + length ids)
      lost : t.lost ≡ s.lost
      set : (labels : Option Map) × (t.set ≡ relabel labels cs)

    abbrev Grows : List Claim → List Claim → List String → SetState → Type 0
    Grows before made ids s =
        Ends (λ _ t. Grown before made ids s t) (λ e t. t.lost ≡ s.lost)
          (create_all k before made ids s)

    written_keeps_others :
        (id : String) (m : Map) → Agrees (some m) → Agrees (some (written_labels cs id m))
    written_keeps_others id m agrees off key a b =
        lookup-insert claim_instance_id_label key id (insert claim_set_name_label cs.name m)
        ∙ rw a (lookup-insert claim_set_name_label key cs.name m ∙ rw b (agrees off key a b))

    -- The state with the set as it is by then.
    abbrev by_then : Option Map → SetState → SetState
    by_then labels s = record s { set = relabel labels cs }

    create_all-Grows :
        (ids : List String) (before made : List Claim) (s : SetState) (labels : Option Map)
        → Agrees labels
        → s.owned ≡ before ++ made
        → Grows before made ids (by_then labels s)
    unfolding create_all make_claim claim_with
    create_all-Grows [] before made s labels agrees owned = record {
      claims = [];
      made_all = tt;
      asked = refl;
      all = (made, owned, omega arith);
      lost = refl;
      set = (labels, refl);
    }
    create_all-Grows (id ∷ ids) before made s none agrees owned = refl
    create_all-Grows (id ∷ ids) before made s (some m) agrees owned =
        perform-Ends _ _ (create_claim claim) sending (k.create s.calls claim) _
          (λ x answered.
            after x (shared_set-relabel x (written_labels cs id m))
              (λ labels a. create_all-Grows ids before (more x) (goes_on x) labels a refl))
          (λ e. refl)
      where
        claim : Claim
        claim = claim_with cs id (written_labels cs id m)

        sending : SetState
        sending = record s {
          set = relabel (some (written_labels cs id m)) cs;
          owned = before ++ share k claim.labels made;
        }

        more : Claim → List Claim
        more x = share k x.labels (share k claim.labels made ++ x ∷ [])

        goes_on : Claim → SetState
        goes_on x = record (called (create_claim claim) s) { owned = before ++ more x }

        length-more : (x : Claim) → length (more x) ≡ suc (length made)
        length-more x =
            length-share x.labels (share k claim.labels made ++ x ∷ [])
            ∙ length-added (share k claim.labels made) x
            ∙ ap suc (length-share claim.labels made)

        after :
            (x : Claim)
            → ((labels : Option Map) × (shared_set k x (relabel (some (written_labels cs id m)) cs)
                  ≡ relabel labels cs)
                × (k.shares_labels ≡ false → labels ≡ some (written_labels cs id m)))
            → ((labels : Option Map)
                → Agrees labels
                → Grows before (more x) ids (by_then labels (goes_on x)))
            → Ends
                (λ _ t. Grown before made (id ∷ ids) (by_then (some m) s) t)
                (λ e t. t.lost ≡ s.lost)
                (create_all k before (more x) ids (record (goes_on x) {
                  set = shared_set k x (relabel (some (written_labels cs id m)) cs);
                }))
        after x (labels, e, h) next =
            subst
              (λ v.
                Ends (λ _ t. Grown before made (id ∷ ids) (by_then (some m) s) t)
                  (λ e t. t.lost ≡ s.lost)
                  (create_all k before (more x) ids (record (goes_on x) { set = v })))
              (sym e)
              (Ends-map _ _ _ _ (create_all k before (more x) ids (by_then labels (goes_on x)))
                (λ _ t g. record {
                  claims = claim ∷ g.claims;
                  made_all = (claim_with-IsMade id m agrees, g.made_all);
                  asked = g.asked ∙ creations_push claim g.claims s.calls;
                  all = (g.all.0, g.all.1, omega (arith, g.all.2, length-more x));
                  lost = g.lost;
                  set = g.set;
                })
                (λ _ _ l. l)
                (next labels (λ off key a b.
                  ap (λ o. lookup key (labels_or_none o)) (h off)
                  ∙ written_keeps_others id m agrees off key a b)))

  -- The loop of scaleOut.
  pub create_all-Created :
      (ids : List String) (s : SetState)
      → Ends (λ _ t. Created k ids s t) (λ e t. t.lost ≡ s.lost) (create_all k s.owned [] ids s)
  create_all-Created ids s =
      Ends-map _ _ _ _ (create_all k s.owned [] ids s)
        (λ _ t g. record {
          claims = Grown.claims g;
          made = Grown.made_all g;
          asked = Grown.asked g;
          more = ((Grown.all g).0, (Grown.all g).1, omega (arith, (Grown.all g).2));
          lost = Grown.lost g;
          set = Grown.set g;
        })
        (λ _ _ l. l)
        (create_all-Grows s.set (template_labels s.set) ids s.owned [] s s.set.template.labels
          (λ _ _ _ _. refl) (sym (append-nil s.owned)))
