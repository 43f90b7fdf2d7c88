-- ===== src/Prelude/Members.antt =====
-- The laws of `contains`, and of lists that are put together.
use nyc_pa_aws_gitops.Prelude.{
  String, ◌≡◌, refl, subst, true, ◌||◌, List, [], ◌∷◌, ◌++◌, arith, contains, ◌==◌, eq_iff,
  Bool-cases, str_le, inl, inr, insert_sorted, sorted,
}

pub contains-append :
    (xs ys : List String) (x : String) → contains (xs ++ ys) x ≡ (contains xs x || contains ys x)
contains-append [] ys x = refl
contains-append (y ∷ xs) ys x = ground (arith, contains-append xs ys x)

pub contains-same :
    (p x : String) (xs : List String) → p == x ≡ true → contains xs p ≡ true → contains xs x ≡ true
contains-same p x xs e h = subst (λ z. contains xs z ≡ true) (ground (arith, eq_iff p x)) h

contains-insert_sorted :
    (y : String) (ys : List String) (x : String)
    → contains (insert_sorted y ys) x ≡ (y == x || contains ys x)
unfolding insert_sorted
contains-insert_sorted y [] x = refl
contains-insert_sorted y (z ∷ ys) x = elim (Bool-cases (str_le y z)) [
  | inl e ↦ rw e refl
  | inr e ↦ rw (e, contains-insert_sorted y ys x) (ground arith)
]

pub contains-sorted : (xs : List String) (x : String) → contains (sorted xs) x ≡ contains xs x
unfolding sorted
contains-sorted [] x = refl
contains-sorted (y ∷ xs) x = rw (contains-insert_sorted y (sorted xs) x, contains-sorted xs x) refl

pub in_front :
    (xs ys : List String) (t : String) → contains xs t ≡ true → contains (xs ++ ys) t ≡ true
in_front xs ys t h = rw (contains-append xs ys t, h) refl

pub behind :
    (xs ys : List String) (t : String) → contains ys t ≡ true → contains (xs ++ ys) t ≡ true
behind xs ys t h = rw (contains-append xs ys t, h) (ground arith)

pub both_empty : (xs ys : List String) → xs ++ ys ≡ [] → (xs ≡ []) × (ys ≡ [])
both_empty [] ys h = (refl, h)
both_empty (x ∷ xs) ys h = cc
