-- ===== src/Base/Sort.antt =====
-- slices.SortFunc by insertion (which Go runs on short slices), and what it promises.
use mathlib.Core.Logic.{inl, inr}
use mathlib.Core.List.{List, [], ◌∷◌, Perm}
use mathlib.Core.List.Perm
use native.Mathlib.Omega.{arith}
use matrixone_operator.Base.Tests.{if◌then◌else◌, Bool-cases}
use matrixone_operator.Base.Lists.{All, take, drop, length}
use Prim.Native.Nat.{ℕ, zero, suc}
use mathlib.Core.Path.{◌≡◌, refl}
use matrixone_operator.Base.Int.{ℤ, is_pos, AtMost, IsOrder}

module _ {ℓ} {A : Type ℓ} (cmp : A → A → ℤ) where
  pub insert_sorted : A → List A → List A
  insert_sorted a [] = a ∷ []
  insert_sorted a (x ∷ xs) =
      let rest = insert_sorted a xs in if is_pos (cmp a x) then x ∷ rest else a ∷ x ∷ xs

  unfoldable pub sort : List A → List A
  unfolding insert_sorted
  sort [] = []
  sort (x ∷ xs) = insert_sorted x (sort xs)

  insert_sorted-perm : (a : A) (xs : List A) → Perm (insert_sorted a xs) (a ∷ xs)
  unfolding insert_sorted
  insert_sorted-perm a [] = Perm.rfl
  insert_sorted-perm a (x ∷ xs) = elim (Bool-cases (is_pos (cmp a x))) [
    | inl after ↦ rw after (Perm.trans (Perm.cons x (insert_sorted-perm a xs)) (Perm.swap a x xs))
    | inr before ↦ rw before Perm.rfl
  ]

  pub sort-perm : (xs : List A) → Perm (sort xs) xs
  unfolding sort
  sort-perm [] = Perm.rfl
  sort-perm (x ∷ xs) = Perm.trans (insert_sorted-perm x (sort xs)) (Perm.cons x (sort-perm xs))

  length-insert_sorted : (a : A) (xs : List A) → length (insert_sorted a xs) ≡ suc (length xs)
  unfolding insert_sorted
  length-insert_sorted a [] = refl
  length-insert_sorted a (x ∷ xs) = ground (arith, length-insert_sorted a xs)

  pub length-sort : (xs : List A) → length (sort xs) ≡ length xs
  unfolding sort
  length-sort [] = refl
  length-sort (x ∷ xs) = omega (arith, length-insert_sorted x (sort xs), length-sort xs)

  abbrev pub IsSorted : List A → Type ℓ
  IsSorted [] = Unit
  IsSorted (x ∷ xs) = All (λ y. AtMost (cmp x y)) xs × IsSorted xs

module _ {ℓ} {A : Type ℓ} {cmp : A → A → ℤ} (o : IsOrder cmp) where
  All-AtMost :
      (a x : A) (xs : List A)
      → AtMost (cmp a x)
      → All (λ y. AtMost (cmp x y)) xs
      → All (λ y. AtMost (cmp a y)) xs
  All-AtMost a x [] p h = tt
  All-AtMost a x (y ∷ ys) p h = (o.trans a x y p h.0, All-AtMost a x ys p h.1)

  All-insert_sorted :
      (x a : A) (xs : List A)
      → AtMost (cmp x a)
      → All (λ y. AtMost (cmp x y)) xs
      → All (λ y. AtMost (cmp x y)) (insert_sorted cmp a xs)
  unfolding insert_sorted
  All-insert_sorted x a [] p h = (p, tt)
  All-insert_sorted x a (y ∷ ys) p h = elim (Bool-cases (is_pos (cmp a y))) [
    | inl after ↦ rw after (h.0, All-insert_sorted x a ys p h.1)
    | inr before ↦ rw before (p, h)
  ]

  insert_sorted-IsSorted :
      (a : A) (xs : List A) → IsSorted cmp xs → IsSorted cmp (insert_sorted cmp a xs)
  unfolding insert_sorted
  insert_sorted-IsSorted a [] h = (tt, tt)
  insert_sorted-IsSorted a (x ∷ xs) h = elim (Bool-cases (is_pos (cmp a x))) [
    | inl after ↦ rw after (
      All-insert_sorted x a xs (ground (arith, o.swaps a x)) h.0,
      insert_sorted-IsSorted a xs h.1,
    )
    | inr before ↦ rw before ((before, All-AtMost a x xs before h.0), h)
  ]

  pub sort-IsSorted : (xs : List A) → IsSorted cmp (sort cmp xs)
  unfolding sort
  sort-IsSorted [] = tt
  sort-IsSorted (x ∷ xs) = insert_sorted-IsSorted x (sort cmp xs) (sort-IsSorted xs)

-- Of a sorted list, what is taken from the front may stand before all that is left.
module _ {ℓ} {A : Type ℓ} (cmp : A → A → ℤ) where
  All-drop :
      (a : A) (n : ℕ) (xs : List A)
      → All (λ y. AtMost (cmp a y)) xs
      → All (λ y. AtMost (cmp a y)) (drop n xs)
  All-drop a zero xs h = h
  All-drop a (suc n) [] h = tt
  All-drop a (suc n) (x ∷ xs) h = All-drop a n xs h.1

  pub IsSorted-take-drop :
      (n : ℕ) (xs : List A)
      → IsSorted cmp xs
      → All (λ a. All (λ y. AtMost (cmp a y)) (drop n xs)) (take n xs)
  IsSorted-take-drop zero xs h = tt
  IsSorted-take-drop (suc n) [] h = tt
  IsSorted-take-drop (suc n) (x ∷ xs) h = (All-drop x n xs h.0, IsSorted-take-drop n xs h.1)

-- What holds of all elements of a list holds of all of the sorted one, and of its front.
module _ {ℓ κ} {A : Type ℓ} (P : A → Type κ) (cmp : A → A → ℤ) where
  All-insert : (a : A) (xs : List A) → P a → All P xs → All P (insert_sorted cmp a xs)
  unfolding insert_sorted
  All-insert a [] h k = (h, tt)
  All-insert a (x ∷ xs) h k = elim (Bool-cases (is_pos (cmp a x))) [
    | inl after ↦ rw after (k.0, All-insert a xs h k.1)
    | inr before ↦ rw before (h, k)
  ]

  pub All-sort : (xs : List A) → All P xs → All P (sort cmp xs)
  unfolding sort
  All-sort [] k = tt
  All-sort (x ∷ xs) k = All-insert x (sort cmp xs) k.0 (All-sort xs k.1)

pub All-take {ℓ κ} :
    {A : Type ℓ} (P : A → Type κ) (n : ℕ) (xs : List A) → All P xs → All P (take n xs)
All-take P zero xs k = tt
All-take P (suc n) [] k = tt
All-take P (suc n) (x ∷ xs) k = (k.0, All-take P n xs k.1)
