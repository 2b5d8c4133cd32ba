-- ===== src/Base/Trace.antt =====
-- Which calls a step adds to the history of calls.
use mathlib.Core.Path.{◌≡◌, refl}
use mathlib.Core.Bool.{Bool, true, false}
use mathlib.Core.List.{List, ◌∷◌}
use matrixone_operator.Base.Tests.{if◌then◌else◌}
use matrixone_operator.Base.Run.{Error, M, ◌>>=◌, ◌>>◌, Ends, Ends-bind, Ends-map, pure, throw}

-- The second list is the first with calls of `P` put before it.
pub data Extends {C : Type 0} (P : C → Type 0) (base : List C) : List C → Type 0 where
  same : Extends P base base
  more : (c : C) (cs : List C) → P c → Extends P base cs → Extends P base (c ∷ cs)

pub Extends-trans :
    {C : Type 0} {P : C → Type 0} {xs ys zs : List C}
    → Extends P xs ys
    → Extends P ys zs
    → Extends P xs zs
Extends-trans h same = h
Extends-trans h (more c cs p e) = more c cs p (Extends-trans h e)

pub Extends-map :
    {C : Type 0} {P Q : C → Type 0} {xs ys : List C}
    → ((c : C) → P c → Q c)
    → Extends P xs ys
    → Extends Q xs ys
Extends-map f same = same
Extends-map f (more c cs p e) = more c cs (f c p) (Extends-map f e)

-- The second list is the first with calls put before it, each of `P` after those before it.
pub data Follows {C : Type 0} (P : List C → C → Type 0) (base : List C) : List C → Type 0 where
  start : Follows P base base
  next : (c : C) (cs : List C) → P cs c → Follows P base cs → Follows P base (c ∷ cs)

pub Follows-trans :
    {C : Type 0} {P : List C → C → Type 0} {xs ys zs : List C}
    → Follows P xs ys
    → Follows P ys zs
    → Follows P xs zs
Follows-trans h start = h
Follows-trans h (next c cs p e) = next c cs p (Follows-trans h e)

-- The second list ends in the first.
infix 20 ◌⊑◌
abbrev pub ◌⊑◌ : {C : Type 0} → List C → List C → Type 0
xs ⊑ ys = Extends (λ _. Unit {0}) xs ys

pub Follows-⊑ : {C : Type 0} {P : List C → C → Type 0} {xs ys : List C} → Follows P xs ys → xs ⊑ ys
Follows-⊑ start = same
Follows-⊑ (next c cs p e) = more c cs tt (Follows-⊑ e)

module _ {S : Type 0} {C : Type 0} (calls : S → List C) (P : List C → C → Type 0)
    (base : List C) where
  -- From a state after `base`, a step makes calls of `P` only, whether it ends in a value or in an
  -- error; and a value is of `Q`, which may speak of the calls made by then.
  abbrev pub Gives {ℓ} : {A : Type ℓ} → (A → List C → Type 0) → M S A → S → Type 0
  Gives Q m s =
      base ⊑ calls s
      → Ends (λ a t. Q a (calls t) × Follows P (calls s) (calls t))
          (λ _ t. Follows P (calls s) (calls t)) (m s)

  pub Gives-bind {ℓ κ} :
      {A : Type ℓ} {B : Type κ} (Q : A → List C → Type 0) (R : B → List C → Type 0) (m : M S A)
      (f : A → M S B) (s : S)
      → Gives Q m s
      → ((a : A) (t : S) → Q a (calls t) → calls s ⊑ calls t → Gives R (f a) t)
      → Gives R (m >>= f) s
  Gives-bind Q R m f s h k from =
      Ends-bind (λ b t. R b (calls t) × Follows P (calls s) (calls t))
        (λ _ t. Follows P (calls s) (calls t)) (m s) f (h from)
        (λ a t p.
          Ends-map (λ b u. R b (calls u) × Follows P (calls t) (calls u)) _
            (λ _ u. Follows P (calls t) (calls u)) _ (f a t) (λ _ u q. (q.0, Follows-trans p.1 q.1))
            (λ _ u q. Follows-trans p.1 q)
            (k a t p.0 (Follows-⊑ p.1) (Extends-trans from (Follows-⊑ p.1))))

  pub Gives-ite {ℓ} :
      {A : Type ℓ} (Q : A → List C → Type 0) (b : Bool) (m f : M S A) (s : S)
      → (b ≡ true → Gives Q m s)
      → (b ≡ false → Gives Q f s)
      → Gives Q (if b then m else f) s
  Gives-ite Q true m f s h k = h refl
  Gives-ite Q false m f s h k = k refl

module _ {S : Type 0} {C : Type 0} (calls : S → List C) (I : S → Type 0) (P : C → Type 0) where
  -- The state that a run from `s` leaves.
  abbrev pub After : S → S → Type 0
  After s t = I t × Extends P (calls s) (calls t)

  pub After-trans : (s t u : S) → After s t → After t u → After s u
  After-trans s t u a b = (b.0, Extends-trans a.1 b.1)

  -- From a state of `I` a step leads to a state of `I`, and makes calls of `P` only, whether it ends
  -- in a value or in an error.
  abbrev pub Only {ℓ} : {A : Type ℓ} → M S A → Type 0
  Only m = (s : S) → I s → Ends (λ _ t. After s t) (λ _ t. After s t) (m s)

  pub Only-bind {ℓ κ} :
      {A : Type ℓ} {B : Type κ} (m : M S A) (f : A → M S B)
      → Only m
      → ((a : A) → Only (f a))
      → Only (m >>= f)
  Only-bind m f h k s i =
      Ends-bind (λ _ t. After s t) (λ _ t. After s t) (m s) f (h s i)
        (λ a t p.
          Ends-map (λ _ u. After t u) _ (λ _ u. After t u) _ (f a t)
            (λ _ u q. After-trans s t u p q) (λ _ u q. After-trans s t u p q) (k a t p.0))

  pub Only-then {κ} :
      {B : Type κ} (m : M S (Unit {0})) (f : M S B) → Only m → Only f → Only (m >> f)
  Only-then m f h k = Only-bind m (λ _. f) h (λ _. k)

  pub Only-done {ℓ} : {A : Type ℓ} (a : A) → Only (pure a)
  Only-done a s i = (i, same)

  pub Only-fail {ℓ} : (A : Type ℓ) (e : Error) → Only {A = A} (throw e)
  Only-fail A e s i = (i, same)

  pub Only-if {ℓ} :
      {A : Type ℓ} (b : Bool) (m f : M S A)
      → (b ≡ true → Only m)
      → (b ≡ false → Only f)
      → Only (elim b [ true ↦ m | false ↦ f ])
  Only-if true m f h k = h refl
  Only-if false m f h k = k refl
