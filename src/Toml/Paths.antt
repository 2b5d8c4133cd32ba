-- ===== src/Toml/Paths.antt =====
-- Get after Set and after Del.
use matrixone_operator.Base.{
  ◌=s◌, if◌then◌else◌, =s_iff, =s_refl, Bool-cases, Option-cases, String, ◌≡◌, refl, sym, ap, ◌∙◌,
  subst, inl, inr, Bool, true, false, none, some, List, [], ◌∷◌, arith,
}
use matrixone_operator.Toml.{
  Value, null, table, Fields, end, field, find, put, remove, TomlConfig, or_null, as_table,
  table_at, get, set, non_null, get_path, set_path, or_end, del, del_path,
}

pub find-put :
    (j k : String) (v : Value) (m : Fields)
    → find j (put k v m) ≡ (if k =s j then some v else find j m)
unfolding find put
find-put j k v end = refl
find-put j k v (field i w m) = ground (arith, =s_iff k j, =s_iff i k, =s_iff i j, find-put j k v m)

pub find-remove :
    (j k : String) (m : Fields) → find j (remove k m) ≡ (if k =s j then none else find j m)
unfolding find remove
find-remove j k end = ground arith
find-remove j k (field i w m) =
    ground (arith, =s_iff k j, =s_iff i k, =s_iff i j, find-remove j k m)

-- Two paths that part before either ends.
abbrev pub part : List String → List String → Bool
part [] q = false
part (k ∷ p) [] = false
part (k ∷ p) (j ∷ q) = if k =s j then part p q else true

table_at-put :
    (j k : String) (n m : Fields)
    → table_at j (put k (table n) m) ≡ (if k =s j then some n else table_at j m)
unfolding table_at
table_at-put j k n m = ap (λ o. as_table (or_null o)) (find-put j k (table n) m) ∙ ground arith

table_at-put_self : (k : String) (n m : Fields) → table_at k (put k (table n) m) ≡ some n
table_at-put_self k n m = table_at-put k k n m ∙ rw (=s_refl k) refl

get-put_self : (k : String) (v : Value) (m : Fields) → get (put k v m) (k ∷ []) ≡ v
unfolding get
get-put_self k v m = rw (find-put k k v m) (rw (=s_refl k) refl)

get-put_one :
    (k i : String) (v : Value) (m : Fields)
    → (k =s i) ≡ false
    → get (put k v m) (i ∷ []) ≡ get m (i ∷ [])
unfolding get
get-put_one k i v m e = rw (find-put i k v m) (rw e refl)

table_at-put_ne :
    (k i : String) (v : Value) (m : Fields)
    → (k =s i) ≡ false
    → table_at i (put k v m) ≡ table_at i m
unfolding table_at
table_at-put_ne k i v m e = rw (find-put i k v m) (rw e refl)

pub get-end : (k : String) (q : List String) → get end (k ∷ q) ≡ null
unfolding get find table_at
get-end k [] = refl
get-end k (j ∷ q) = refl

-- What a longer path finds, from the map that its first key names.
pub get_step :
    (m : Fields) (k j : String) (q : List String)
    → get m (k ∷ j ∷ q) ≡ get (or_end (table_at k m)) (j ∷ q)
unfolding get
get_step m k j q = elim (Option-cases (table_at k m)) [
  | inl e ↦ rw (e, get) (sym (get-end j q))
  | inr (n, e) ↦ rw (e, get) refl
]

get-remove_self : (k : String) (m : Fields) → get (remove k m) (k ∷ []) ≡ null
unfolding get
get-remove_self k m = rw (find-remove k k m) (rw (=s_refl k) refl)

get-remove_ne :
    (m : Fields) (k i : String) (q : List String)
    → (k =s i) ≡ false
    → get (remove k m) (i ∷ q) ≡ get m (i ∷ q)
unfolding get table_at
get-remove_ne m k i [] e = rw (find-remove i k m) (rw e refl)
get-remove_ne m k i (j ∷ q) e = rw (find-remove i k m, get) (rw (e, get) refl)

get-set_self :
    (m : Fields) (v : Value) (k : String) (p : List String) → get (set m v (k ∷ p)) (k ∷ p) ≡ v
unfolding set
get-set_self m v k [] = get-put_self k v m
get-set_self m v k (j ∷ p) =
    get_step _ k j p
    ∙ rw (table_at-put_self k (set (or_end (table_at k m)) v (j ∷ p)) m)
        (get-set_self (or_end (table_at k m)) v j p)

-- One key is changed: another one is found as before.
get-put_ne :
    (m : Fields) (v : Value) (k i : String) (q : List String)
    → (k =s i) ≡ false
    → get (put k v m) (i ∷ q) ≡ get m (i ∷ q)
get-put_ne m v k i [] e = get-put_one k i v m e
get-put_ne m v k i (j ∷ q) e =
    get_step _ i j q
    ∙ ap (λ o. get (or_end o) (j ∷ q)) (table_at-put_ne k i v m e)
    ∙ sym (get_step m i j q)

-- The map under a key is changed where a path below it does not lead.
get-put_under :
    (m n : Fields) (k h : String) (q : List String)
    → get n (h ∷ q) ≡ get (or_end (table_at k m)) (h ∷ q)
    → get (put k (table n) m) (k ∷ h ∷ q) ≡ get m (k ∷ h ∷ q)
get-put_under m n k h q e =
    get_step _ k h q ∙ rw (table_at-put_self k n m) e ∙ sym (get_step m k h q)

part-nil : (p : List String) → part p [] ≡ false
part-nil [] = refl
part-nil (k ∷ p) = refl

-- The map under the first key of a path is changed: a path that parts from it finds what it did
-- before, if it does so in that map.
get-put-part :
    (m n : Fields) (k i : String) (p q : List String)
    → part (k ∷ p) (i ∷ q) ≡ true
    → (part p q ≡ true → get n q ≡ get (or_end (table_at k m)) q)
    → get (put k (table n) m) (i ∷ q) ≡ get m (i ∷ q)
get-put-part m n k i p [] e ih = get-put_ne m (table n) k i [] (ground (arith, e, part-nil p))
get-put-part m n k i p (h ∷ q) e ih = elim (Bool-cases (k =s i)) [
  | inl same ↦
      subst (λ x. get (put k (table n) m) (x ∷ h ∷ q) ≡ get m (x ∷ h ∷ q)) ((=s_iff k i).0 same)
        (get-put_under m n k h q (ih (ground (arith, same, e))))
  | inr differs ↦ get-put_ne m (table n) k i (h ∷ q) differs
]

get-set-part :
    (m : Fields) (v : Value) (p q : List String) → part p q ≡ true → get (set m v p) q ≡ get m q
unfolding set
get-set-part m v [] q e = cc
get-set-part m v (k ∷ p) [] e = cc
get-set-part m v (k ∷ []) (i ∷ q) e = get-put_ne m v k i q (ground (arith, e))
get-set-part m v (k ∷ j ∷ p) (i ∷ q) e =
    get-put-part m (set (or_end (table_at k m)) v (j ∷ p)) k i (j ∷ p) q e
      (get-set-part (or_end (table_at k m)) v (j ∷ p) q)

get-del_self : (m : Fields) (k : String) (p : List String) → get (del m (k ∷ p)) (k ∷ p) ≡ null
unfolding del
get-del_self m k [] = get-remove_self k m
get-del_self m k (j ∷ p) = elim (Option-cases (table_at k m)) [
  | inl e ↦ rw (e, del) (get_step m k j p ∙ rw e (get-end j p))
  | inr (n, e) ↦
      rw (e, del)
        (get_step (put k (table (del n (j ∷ p))) m) k j p
          ∙ rw (table_at-put_self k (del n (j ∷ p)) m) (get-del_self n j p))
]

get-del-part : (m : Fields) (p q : List String) → part p q ≡ true → get (del m p) q ≡ get m q
unfolding del
get-del-part m [] q e = cc
get-del-part m (k ∷ p) [] e = cc
get-del-part m (k ∷ []) (i ∷ q) e = get-remove_ne m k i q (ground (arith, e))
get-del-part m (k ∷ j ∷ p) (i ∷ q) e = elim (Option-cases (table_at k m)) [
  | inl absent ↦ rw (absent, del) refl
  | inr (n, found) ↦
      rw (found, del)
        (get-put-part m (del n (j ∷ p)) k i (j ∷ p) q e
          (λ h. get-del-part n (j ∷ p) q h ∙ rw found refl))
]

get_path-none :
    (p q : List String)
    → part p q ≡ true
    → (m : Fields) → get m q ≡ get end q
    → get_path (some m) q ≡ get_path none q
unfolding get_path
get_path-none p [] e m h = absurd (ground (arith, e, part-nil p))
get_path-none p (i ∷ q) e m h = ap non_null (h ∙ get-end i q)

-- After Set of a path, Get of the path finds the value set (nothing, for nil), and Get of any path
-- that parts from it finds what it did before, also where the set replaced a plain value by a map.
pub get_path-set_path :
    (c : TomlConfig) (v : Value) (k : String) (p q : List String)
    → part (k ∷ p) q ≡ true
    → (get_path (set_path c (k ∷ p) v) (k ∷ p) ≡ non_null v)
      × (get_path (set_path c (k ∷ p) v) q ≡ get_path c q)
unfolding set_path get_path
get_path-set_path none v k p q e = (
  ap non_null (get-set_self end v k p),
  get_path-none (k ∷ p) q e (set end v (k ∷ p)) (get-set-part end v (k ∷ p) q e),
)
get_path-set_path (some m) v k p q e =
    (ap non_null (get-set_self m v k p), ap non_null (get-set-part m v (k ∷ p) q e))

-- After Del of a path, Get of the path finds nothing, and Get of any path that parts from it finds
-- what it did before.
pub get_path-del_path :
    (c : TomlConfig) (k : String) (p q : List String)
    → part (k ∷ p) q ≡ true
    → (get_path (del_path c (k ∷ p)) (k ∷ p) ≡ none)
      × (get_path (del_path c (k ∷ p)) q ≡ get_path c q)
unfolding del_path get_path
get_path-del_path none k p q e = (refl, refl)
get_path-del_path (some m) k p q e =
    (ap non_null (get-del_self m k p), ap non_null (get-del-part m (k ∷ p) q e))
