-- ===== src/Base/Run.antt =====
-- A reconciler's step: it reads and writes a state and ends in a value or an error. What it did to
-- the state before an error stays done.
use Prim.Native.Nat.{ℕ}
use mathlib.Core.Bool.{Bool, true, false}
use matrixone_operator.Base.Tests.{if◌then◌else◌}
use mathlib.Core.Path.{◌≡◌, refl, ap}

-- The kinds of an API server's refusal that the code tells apart (apierrors.IsNotFound, IsConflict).
pub data ApiError : Type 0 where
  not_found conflict refused : ApiError

-- An error that a step returns: an API error passed on, a request to come back after a number of
-- seconds (recon.ErrReSync), or any other message.
pub data Error : Type 0 where
  api : ApiError → Error
  resync : ℕ → Error
  failed : Error
  -- one whose text contains "does not exist"
  missing : Error
  -- a panic of the Go program, which ends the reconciliation
  panicked : Error
  -- not an error of the program: the model's bound on a loop was too small
  out_of_fuel : Error

-- What a call of the API server answers.
pub data Answer {ℓ} (A : Type ℓ) : Type ℓ where
  ok : A → Answer A
  err : ApiError → Answer A

pub data Run {ℓ} (S : Type 0) (A : Type ℓ) : Type ℓ where
  done : A → S → Run S A
  fail : Error → S → Run S A

abbrev pub M {ℓ} : Type 0 → Type ℓ → Type ℓ
M S A = S → Run S A

infixl 5 ◌>>=◌ ◌>>◌
abbrev pub ◌>>=◌ {ℓ κ} : {S : Type 0} {A : Type ℓ} {B : Type κ} → M S A → (A → M S B) → M S B
◌>>=◌ m f s = elim (m s) [ done a s' ↦ f a s' | fail e s' ↦ fail e s' ]

abbrev pub ◌>>◌ {κ} : {S : Type 0} {B : Type κ} → M S (Unit {0}) → M S B → M S B
◌>>◌ m k s = elim (m s) [ done a s' ↦ k s' | fail e s' ↦ fail e s' ]

abbrev pub pure {ℓ} : {S : Type 0} {A : Type ℓ} → A → M S A
pure a s = done a s

abbrev pub throw {ℓ} : {S : Type 0} {A : Type ℓ} → Error → M S A
throw e s = fail e s

-- The state in which a run ends.
abbrev pub final {ℓ} : {S : Type 0} {A : Type ℓ} → Run S A → S
final (done a s) = s
final (fail e s) = s

-- A postcondition of a run: one for its value, one for its error.
abbrev pub Ends {ℓ κ} :
    {S : Type 0} {A : Type ℓ} → (A → S → Type κ) → (Error → S → Type κ) → Run S A → Type κ
Ends Q E (done a s) = Q a s
Ends Q E (fail e s) = E e s

pub Ends-bind {ℓ κ ι} :
    {S : Type 0} {A : Type ℓ} {B : Type ι} {P : A → S → Type κ} (Q : B → S → Type κ)
    (E : Error → S → Type κ) (m : Run S A) (f : A → M S B)
    → Ends P E m
    → ((a : A) (s : S) → P a s → Ends Q E (f a s))
    → Ends Q E (elim m [ done a s' ↦ f a s' | fail e s' ↦ fail e s' ])
Ends-bind Q E (done a s) f p k = k a s p
Ends-bind Q E (fail e s) f p k = p

pub Ends-map {ℓ κ} :
    {S : Type 0} {A : Type ℓ} (P Q : A → S → Type κ) (E F : Error → S → Type κ) (m : Run S A)
    → ((a : A) (s : S) → P a s → Q a s)
    → ((e : Error) (s : S) → E e s → F e s)
    → Ends P E m
    → Ends Q F m
Ends-map P Q E F (done a s) f g h = f a s h
Ends-map P Q E F (fail e s) f g h = g e s h

-- The end of a call: its answer, in the state that records it.
abbrev pub answer {ℓ} : {S : Type 0} {A : Type ℓ} → Answer A → M S A
answer (ok a) s = done a s
answer (err e) s = fail (api e) s

-- The same, where an object that is missing is no error: util.Ignore(apierrors.IsNotFound, …).
abbrev pub ignore_missing : {S : Type 0} → Answer (Unit {0}) → M S (Unit {0})
ignore_missing (ok a) s = done tt s
ignore_missing (err not_found) s = done tt s
ignore_missing (err conflict) s = fail (api conflict) s
ignore_missing (err refused) s = fail (api refused) s

-- What follows a call holds if it holds for every good answer.
pub answer-Ends {ℓ κ ι} :
    {S : Type 0} {A : Type ℓ} {B : Type ι} (Q : B → S → Type κ) (E : Error → S → Type κ) (s : S)
    (a : Answer A) (f : A → M S B)
    → ((x : A) → a ≡ ok x → Ends Q E (f x s))
    → ((e : ApiError) → a ≡ err e → E (api e) s)
    → Ends Q E ((answer a >>= f) s)
answer-Ends Q E s (ok x) f good bad = good x refl
answer-Ends Q E s (err e) f good bad = bad e refl

or_value {ℓ} : {A : Type ℓ} → A → Answer A → A
or_value d (ok a) = a
or_value d (err e) = d

pub ok-eq {ℓ} : {A : Type ℓ} {a b : A} → ok a ≡ ok b → a ≡ b
unfolding or_value
ok-eq {A} {a} {b} p = ap (or_value a) p

pub Ends-both {ℓ κ ι} :
    {S : Type 0} {A : Type ℓ} (P : A → S → Type κ) (Q : A → S → Type ι) (E : Error → S → Type κ)
    (F : Error → S → Type ι) (m : Run S A)
    → Ends P E m
    → Ends Q F m
    → Ends (λ a s. P a s × Q a s) (λ e s. E e s × F e s) m
Ends-both P Q E F (done a s) g h = (g, h)
Ends-both P Q E F (fail e s) g h = (g, h)

pub Ends-any {ℓ} :
    {S : Type 0} {A : Type ℓ} (m : Run S A) → Ends (λ _ _. Unit {0}) (λ _ _. Unit {0}) m
Ends-any (done a s) = tt
Ends-any (fail e s) = tt

pub Ends-if {ℓ κ} :
    {S : Type 0} {A : Type ℓ} (Q : A → S → Type κ) (E : Error → S → Type κ) (b : Bool) (m f : M S A)
    (s : S)
    → (b ≡ true → Ends Q E (m s))
    → (b ≡ false → Ends Q E (f s))
    → Ends Q E (elim b as (λ _. M S A) [ true ↦ m | false ↦ f ] s)
Ends-if Q E true m f s h k = h refl
Ends-if Q E false m f s h k = k refl

pub Ends-ite {ℓ κ} :
    {S : Type 0} {A : Type ℓ} (Q : A → S → Type κ) (E : Error → S → Type κ) (b : Bool)
    (m n : Run S A)
    → (b ≡ true → Ends Q E m)
    → (b ≡ false → Ends Q E n)
    → Ends Q E (if b then m else n)
Ends-ite Q E true m n h k = h refl
Ends-ite Q E false m n h k = k refl

pub Ends-choice {ℓ κ} :
    {S : Type 0} {A : Type ℓ} (Q : A → S → Type κ) (E : Error → S → Type κ) (b : Bool) (m n : M S A)
    (s : S)
    → (b ≡ true → Ends Q E (m s))
    → (b ≡ false → Ends Q E (n s))
    → Ends Q E ((if b then m else n) s)
Ends-choice Q E true m n s h k = h refl
Ends-choice Q E false m n s h k = k refl
