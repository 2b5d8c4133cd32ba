-- ===== src/Base/Int.antt =====
-- Go's signed `int` as the result of a comparison, and the contract of a comparison function.
use Prim.Native.Nat.{ℕ, zero, suc, ◌+◌, ◌-◌}
use mathlib.Core.Path.{◌≡◌}
use mathlib.Core.Bool.{Bool, true, false}
use native.Mathlib.Omega.{arith}
use matrixone_operator.Base.Tests.{leb, ltb, if◌then◌else◌}

-- `negsuc n` is -(n + 1).
pub data ℤ : Type 0 where
  pos : ℕ → ℤ
  negsuc : ℕ → ℤ

abbrev pub pos_part : ℤ → ℕ
pos_part (pos n) = n
pos_part (negsuc n) = 0

abbrev pub neg_part : ℤ → ℕ
neg_part (pos n) = 0
neg_part (negsuc n) = suc n

-- a - b, as an integer.
abbrev pub sub_ℕ : ℕ → ℕ → ℤ
sub_ℕ a b = if leb b a then pos (a - b) else negsuc (b - a - 1)

infixl 65 ◌+ℤ◌
abbrev pub ◌+ℤ◌ : ℤ → ℤ → ℤ
a +ℤ b = sub_ℕ (pos_part a + pos_part b) (neg_part a + neg_part b)

abbrev pub ltb_ℤ : ℤ → ℤ → Bool
ltb_ℤ a b = ltb (pos_part a + neg_part b) (pos_part b + neg_part a)

abbrev pub is_zero : ℤ → Bool
is_zero (pos zero) = true
is_zero (pos (suc n)) = false
is_zero (negsuc n) = false

abbrev pub is_neg : ℤ → Bool
is_neg (pos n) = false
is_neg (negsuc n) = true

abbrev pub is_pos : ℤ → Bool
is_pos (pos zero) = false
is_pos (pos (suc n)) = true
is_pos (negsuc n) = false

-- `if c != 0 { return c }; return d`
abbrev pub or_else : ℤ → ℤ → ℤ
or_else (pos zero) d = d
or_else (pos (suc n)) d = pos (suc n)
or_else (negsuc n) d = negsuc n

-- `a` may stand before `b`: the comparison does not say that it is greater.
abbrev pub AtMost : ℤ → Type 0
AtMost c = is_pos c ≡ false

-- What slices.SortFunc asks of a comparison function, at three values: swapped arguments give the
-- opposite sign, and what may stand before is transitive.
pub record Swaps {ℓ} {A : Type ℓ} (c : A → A → ℤ) (a b : A) : Type 0 where
  pub less : is_neg (c a b) ≡ is_pos (c b a)
  pub greater : is_pos (c a b) ≡ is_neg (c b a)

pub record IsOrder {ℓ} {A : Type ℓ} (c : A → A → ℤ) : Type ℓ where
  pub swaps : (a b : A) → Swaps c a b
  pub trans : (a b d : A) → AtMost (c a b) → AtMost (c b d) → AtMost (c a d)

-- A comparison by a number is one.
pub sub_ℕ-IsOrder {ℓ} : {A : Type ℓ} (key : A → ℕ) → IsOrder (λ a b. sub_ℕ (key a) (key b))
sub_ℕ-IsOrder key = record {
  swaps = λ a b. record { less = ground arith; greater = ground arith };
  trans = λ a b d p q. ground arith;
}

-- So is one by two comparisons, the second where the first is equal.
module _ {ℓ} {A : Type ℓ} {c d : A → A → ℤ} (first : IsOrder c) (second : IsOrder d) where
  or_else-Swaps : (x y : A) → Swaps (λ a b. or_else (c a b) (d a b)) x y
  or_else-Swaps x y = record {
    less = ground (arith, first.swaps x y, second.swaps x y);
    greater = ground (arith, first.swaps x y, second.swaps x y);
  }

  or_else_trans :
      (x y z : A)
      → AtMost (or_else (c x y) (d x y))
      → AtMost (or_else (c y z) (d y z))
      → AtMost (or_else (c x z) (d x z))
  or_else_trans x y z p q = ground (
    arith,
    first.swaps x y,
    first.swaps y z,
    first.swaps x z,
    first.trans x y z,
    first.trans y z x,
    first.trans z x y,
    second.trans x y z,
  )

  pub or_else-IsOrder : IsOrder (λ a b. or_else (c a b) (d a b))
  or_else-IsOrder = record { swaps = or_else-Swaps; trans = or_else_trans }

-- The flipped comparison, and the comparison of what a function reads off.
pub flip-IsOrder {ℓ} : {A : Type ℓ} {c : A → A → ℤ} → IsOrder c → IsOrder (λ a b. c b a)
flip-IsOrder {c} o = record {
  swaps = λ a b. record { less = (o.swaps b a).less; greater = (o.swaps b a).greater };
  trans = λ a b d p q. o.trans d b a q p;
}

pub along-IsOrder {ℓ κ} :
    {A : Type ℓ} {B : Type κ} (c : B → B → ℤ) (f : A → B)
    → IsOrder c
    → IsOrder (λ a b. c (f a) (f b))
along-IsOrder c f o = record {
  swaps =
      λ a b. record { less = (o.swaps (f a) (f b)).less; greater = (o.swaps (f a) (f b)).greater };
  trans = λ a b d. o.trans (f a) (f b) (f d);
}

-- A sign, which is all that a sort reads of a comparison.
abbrev pub SameSign : ℤ → ℤ → Type 0
SameSign c d = (is_neg c ≡ is_neg d) × (is_pos c ≡ is_pos d)

pub SameSign-IsOrder {ℓ} :
    {A : Type ℓ} (c d : A → A → ℤ) → ((a b : A) → SameSign (c a b) (d a b)) → IsOrder d → IsOrder c
SameSign-IsOrder c d same o = record {
  swaps = λ a b. record {
    less = ground (arith, same a b, same b a, o.swaps a b);
    greater = ground (arith, same a b, same b a, o.swaps a b);
  };
  trans = λ x y z p q. ground (arith, same x y, same y z, same x z, o.trans x y z);
}
