-- ===== src/Pool/Legacy/Runs.antt =====
-- Runs of a pool in which every call succeeds.
use matrixone_operator.Base.{
  if◌then◌else◌, ℕ, String, ◌≡◌, refl, sym, ap, ◌∙◌, subst, inr, Bool, true, false, some, List,
}
use matrixone_operator.Base.Run.{Error, Answer, ok, done, fail, M, ◌>>=◌, pure, Ends}
use matrixone_operator.Api.Claim.{Claim}
use matrixone_operator.Api.Pod.{Pod}
use matrixone_operator.Base.{IsAmong}
use matrixone_operator.Base.Map.{Map}
use matrixone_operator.Base.Trace.{Extends, same, more, Extends-trans}
use matrixone_operator.Pool.State.{
  SetSpec, SetItem, CnPool, PoolCall, PoolServer, PoolState, called, ask,
}
use matrixone_operator.Pool.Build.{owned_labels}

-- Every call succeeds, and listing is answered in the same way throughout: with these sets of the pool,
-- pods and claims. A set that is read or written is answered with so many replicas in its status.
pub record IsServing (k : PoolServer) (p : CnPool) (sets : List SetItem) (pods : Map → List Pod)
    (status : String → ℕ) : Type 0 where
  pub sets_listed : (cs : List PoolCall) → k.sets cs (owned_labels p) ≡ ok sets
  pub pods_listed : (cs : List PoolCall) (ls : Map) → k.pods cs ls ≡ ok (pods ls)
  pub claims_listed :
      (cs : List PoolCall) (ls : Map) → (claims : List Claim) × (k.claims cs ls ≡ ok claims)
  pub claim_found : (cs : List PoolCall) (name : String) → k.claim cs name ≡ ok tt
  pub claim_written : (cs : List PoolCall) (name : String) → k.claim_outdated cs name ≡ ok tt
  pub set_found :
      (cs : List PoolCall) (name : String)
      → (i : SetItem) × (k.set cs name ≡ ok i) × (i.status_replicas ≡ status name)
  pub set_written :
      (cs : List PoolCall) (name : String) (spec : SetSpec)
      → k.set_updated cs name spec ≡ ok (status name)
  pub set_gone : (cs : List PoolCall) (name : String) → k.set_deleted cs name ≡ ok tt
  pub parses : (selector : String) → (ls : Map) × (k.parse_selector selector ≡ some ls)

abbrev pub Grows : PoolState → PoolState → Type 0
Grows s t = Extends (λ _. Unit {0}) s.calls t.calls

abbrev pub grown : (c : PoolCall) (s : PoolState) → Grows s (called c s)
grown c s = more c s.calls tt same

pub IsAmong-Grows :
    (c : PoolCall) (s t : PoolState) → IsAmong c s.calls → Grows s t → IsAmong c t.calls
IsAmong-Grows c s t m g = go s.calls t.calls m g
  where
    go : (xs ys : List PoolCall) → IsAmong c xs → Extends (λ _. Unit {0}) xs ys → IsAmong c ys
    go xs _ m same = m
    go xs _ m (more x ys _ g) = inr (go xs ys m g)

-- A step that ends well, in a value and a state of `Q`.
pub record Runs {ℓ} {A : Type ℓ} (m : M PoolState A) (s : PoolState) (Q : A → PoolState → Type 0)
    : Type ℓ where
  pub value : A
  pub end : PoolState
  pub ran : m s ≡ done value end
  pub holds : Q value end
  pub grows : Grows s end

pub Runs-bind {ℓ κ} :
    {A : Type ℓ} {B : Type κ} (m : M PoolState A) (f : A → M PoolState B) (s : PoolState)
    (Q : A → PoolState → Type 0) (R : B → PoolState → Type 0)
    → Runs m s Q
    → ((a : A) (t : PoolState) → Q a t → Grows s t → Runs (f a) t R)
    → Runs (m >>= f) s R
Runs-bind m f s Q R h k = record {
  value = next.value;
  end = next.end;
  ran = ap (λ r. elim r [ done a u ↦ f a u | fail e u ↦ fail e u ]) h.ran ∙ next.ran;
  holds = next.holds;
  grows = Extends-trans h.grows next.grows;
}
  where
    next : Runs (f h.value) h.end R
    next = k h.value h.end h.holds h.grows

pub Runs-ask {ℓ} :
    {A : Type ℓ} (c : PoolCall) (f : List PoolCall → Answer A) (s : PoolState) (a : A)
    (Q : A → PoolState → Type 0)
    → f s.calls ≡ ok a
    → Q a (called c s)
    → Runs (ask c f) s Q
Runs-ask c f s a Q e q = record {
  value = a;
  end = called c s;
  ran = rw e refl;
  holds = q;
  grows = grown c s;
}

pub Runs-pure {ℓ} :
    {A : Type ℓ} (a : A) (s : PoolState) (Q : A → PoolState → Type 0) → Q a s → Runs (pure a) s Q
Runs-pure a s Q q = record { value = a; end = s; ran = refl; holds = q; grows = same }

pub Runs-ite {ℓ} :
    {A : Type ℓ} (b : Bool) (m n : M PoolState A) (s : PoolState) (Q : A → PoolState → Type 0)
    → (b ≡ true → Runs m s Q)
    → (b ≡ false → Runs n s Q)
    → Runs (if b then m else n) s Q
Runs-ite true m n s Q h g = h refl
Runs-ite false m n s Q h g = g refl

pub Runs-map {ℓ} :
    {A : Type ℓ} (m : M PoolState A) (s : PoolState) (Q R : A → PoolState → Type 0)
    → Runs m s Q
    → ((a : A) (t : PoolState) → Q a t → Grows s t → R a t)
    → Runs m s R
Runs-map m s Q R h f = record {
  value = h.value;
  end = h.end;
  ran = h.ran;
  holds = f h.value h.end h.holds h.grows;
  grows = h.grows;
}

-- A step that ends well is followed by another, which may fail.
pub Runs-Ends {ℓ κ} :
    {A : Type ℓ} {B : Type κ} (m : M PoolState A) (f : A → M PoolState B) (s : PoolState)
    (Q : A → PoolState → Type 0) (R : B → PoolState → Type 0) (E : Error → PoolState → Type 0)
    → Runs m s Q
    → ((a : A) (t : PoolState) → Q a t → Ends R E (f a t))
    → Ends R E ((m >>= f) s)
Runs-Ends m f s Q R E h g =
    subst (λ r. Ends R E (elim r [ done a u ↦ f a u | fail e u ↦ fail e u ])) (sym h.ran)
      (g h.value h.end h.holds)
