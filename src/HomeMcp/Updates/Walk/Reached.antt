-- ===== src/HomeMcp/Updates/Walk/Reached.antt =====
-- What holds of the walk at each turn: what it has seen and what waits can be reached by includes.
use nyc_pa_aws_gitops.Prelude.{
  String, ◌≡◌, ◌⊎◌, inl, inr, refl, subst, true, ◌||◌, List, [], ◌∷◌, ◌++◌, arith, contains, ◌==◌,
  eq_iff, Bool-cases,
}
use nyc_pa_aws_gitops.Prelude.Members.{contains-append, contains-same}
use nyc_pa_aws_gitops.Prelude.Results.{ok, err}
use nyc_pa_aws_gitops.HomeMcp.Updates.Images.{Failure, add_new, union_of}
use nyc_pa_aws_gitops.HomeMcp.Updates.Walk.{Files, Found, nothing, page}

contains-add_new :
    (y : String) (ys : List String) (x : String)
    → contains (add_new y ys) x ≡ (y == x || contains ys x)
contains-add_new y ys x = ground (arith, contains-same y x ys)

contains-union_of :
    (xs ys : List String) (x : String)
    → contains (union_of xs ys) x ≡ (contains xs x || contains ys x)
unfolding union_of
contains-union_of [] ys x = refl
contains-union_of (y ∷ xs) ys x =
    rw (contains-add_new y (union_of xs ys) x) (ground (arith, contains-union_of xs ys x))

-- A path of the list `start`, or one that a file includes that can be reached and read.
pub data Reachable (f : Files) (start : List String) : String → Type 0 where
  listed : (p : String) → contains start p ≡ true → Reachable f start p
  included :
      (q : String) (images includes : List String) (p : String)
      → Reachable f start q
      → page f q ≡ ok (images, includes)
      → contains includes p ≡ true
      → Reachable f start p

-- The image `i` stands in a file that can be reached and read.
pub data Named (f : Files) (start : List String) (i : String) : Type 0 where
  named :
      (q : String) (images includes : List String)
      → Reachable f start q
      → page f q ≡ ok (images, includes)
      → contains images i ≡ true
      → Named f start i

-- What holds of the files seen so far and those of the queue.
pub record Reached (f : Files) (start queue : List String) (got : Found) : Type 0 where
  pub seen_reachable : (p : String) → contains got.seen p ≡ true → Reachable f start p
  pub queue_reachable : (p : String) → contains queue p ≡ true → Reachable f start p
  pub starts :
      (p : String) → contains start p ≡ true → contains got.seen p || contains queue p ≡ true
  pub closed :
      (q : String) (images includes : List String) (p : String)
      → contains got.seen q ≡ true
      → page f q ≡ ok (images, includes)
      → contains includes p ≡ true
      → contains got.seen p || contains queue p ≡ true
  pub refs_named : (i : String) → contains got.refs i ≡ true → Named f start i
  pub refs_all :
      (q : String) (images includes : List String) (i : String)
      → contains got.seen q ≡ true
      → page f q ≡ ok (images, includes)
      → contains images i ≡ true
      → contains got.refs i ≡ true

pub begins : (f : Files) (start : List String) → Reached f start start nothing
begins f start = record {
  seen_reachable = λ p h. cc;
  queue_reachable = λ p h. listed p h;
  starts = λ p h. ground arith;
  closed = λ q images includes p h e m. cc;
  refs_named = λ i h. cc;
  refs_all = λ q images includes i h e m. cc;
}

-- `x` is in the rest of the queue or seen, when `p` is seen.
drop_seen :
    (seen queue : List String) (p x : String)
    → contains seen p ≡ true
    → contains seen x || contains (p ∷ queue) x ≡ true
    → contains seen x || contains queue x ≡ true
drop_seen seen queue p x s h = ground (arith, contains-same p x seen)

pub skips :
    (f : Files) (start queue : List String) (p : String) (got : Found)
    → contains got.seen p ≡ true
    → Reached f start (p ∷ queue) got
    → Reached f start queue got
skips f start queue p got s r = record {
  seen_reachable = r.seen_reachable;
  queue_reachable = λ x h. r.queue_reachable x (ground arith);
  starts = λ x h. drop_seen got.seen queue p x s (r.starts x h);
  closed = λ q images includes x h e m.
      drop_seen got.seen queue p x s (r.closed q images includes x h e m);
  refs_named = r.refs_named;
  refs_all = r.refs_all;
}

-- A path that was seen or in the queue stays so when the first of the queue becomes seen.
moves :
    (seen queue more : List String) (p x : String)
    → contains seen x || contains (p ∷ queue) x ≡ true
    → contains (p ∷ seen) x || contains (queue ++ more) x ≡ true
moves seen queue more p x h = ground (arith, contains-append queue more x)

added :
    (seen queue more : List String) (p x : String)
    → contains more x ≡ true
    → contains (p ∷ seen) x || contains (queue ++ more) x ≡ true
added seen queue more p x h = ground (arith, contains-append queue more x)

same_page_includes :
    (f : Files) (p q : String) (images includes is ns : List String) (x : String)
    → p == q ≡ true
    → page f p ≡ ok (images, includes)
    → page f q ≡ ok (is, ns)
    → contains ns x ≡ true
    → contains includes x ≡ true
same_page_includes f p q images includes is ns x same e e' m =
    let names : p ≡ q = ground (arith, eq_iff p q) in cc

same_page_images :
    (f : Files) (p q : String) (images includes is ns : List String) (x : String)
    → p == q ≡ true
    → page f p ≡ ok (images, includes)
    → page f q ≡ ok (is, ns)
    → contains is x ≡ true
    → contains images x ≡ true
same_page_images f p q images includes is ns x same e e' m =
    let names : p ≡ q = ground (arith, eq_iff p q) in cc

-- A path seen that can be read is not `p`, which can't.
not_missed :
    (f : Files) (p q : String) (seen : List String) (e : Failure) (is ns : List String)
    → page f p ≡ err e
    → page f q ≡ ok (is, ns)
    → contains (p ∷ seen) q ≡ true
    → contains seen q ≡ true
not_missed f p q seen e is ns fails e' h = elim (Bool-cases (p == q)) [
  | inl same ↦ let names : p ≡ q = ground (arith, eq_iff p q) in cc
  | inr other ↦ ground arith
]

in_union :
    (xs ys : List String) (i : String)
    → (contains xs i ≡ true) ⊎ (contains ys i ≡ true)
    → contains (union_of xs ys) i ≡ true
in_union xs ys i (inl h) = rw (contains-union_of xs ys i, h) refl
in_union xs ys i (inr h) = rw (contains-union_of xs ys i, h) (ground arith)

-- The first path of the queue is read.
pub reads :
    (f : Files) (start queue : List String) (p : String) (got : Found)
    (images includes : List String)
    → page f p ≡ ok (images, includes)
    → Reached f start (p ∷ queue) got
    → Reached f start
        (queue ++ includes)
        (record { seen = p ∷ got.seen; refs = union_of images got.refs; couldnt = got.couldnt })
reads f start queue p got images includes e r =
    let reachable = r.queue_reachable p (ground (arith, eq_iff p p)) in
    record {
      seen_reachable = λ x h. elim (Bool-cases (p == x)) [
        | inl same ↦ subst (λ z. Reachable f start z) (ground (arith, eq_iff p x)) reachable
        | inr other ↦ r.seen_reachable x (ground arith)
      ];
      queue_reachable = λ x h. elim (Bool-cases (contains includes x)) [
        | inl m ↦ included p images includes x reachable e m
        | inr m ↦ r.queue_reachable x (ground (arith, contains-append queue includes x))
      ];
      starts = λ x h. moves got.seen queue includes p x (r.starts x h);
      closed = λ q is ns x h e' m. elim (Bool-cases (p == q)) [
        | inl same ↦
            added got.seen queue includes p x
              (same_page_includes f p q images includes is ns x same e e' m)
        | inr other ↦ moves got.seen queue includes p x (r.closed q is ns x (ground arith) e' m)
      ];
      refs_named = λ i h. elim (Bool-cases (contains images i)) [
        | inl m ↦ named p images includes reachable e m
        | inr m ↦ r.refs_named i (ground (arith, contains-union_of images got.refs i))
      ];
      refs_all = λ q is ns i h e' m. elim (Bool-cases (p == q)) [
        | inl same ↦
            in_union images got.refs i
              (inl (same_page_images f p q images includes is ns i same e e' m))
        | inr other ↦ in_union images got.refs i (inr (r.refs_all q is ns i (ground arith) e' m))
      ];
    }

-- The first path of the queue can't be read.
pub misses :
    (f : Files) (start queue : List String) (p : String) (got : Found) (e : Failure)
    (couldnt : List String)
    → page f p ≡ err e
    → Reached f start (p ∷ queue) got
    → Reached f start
        (queue ++ [])
        (record { seen = p ∷ got.seen; refs = got.refs; couldnt = couldnt })
misses f start queue p got e couldnt fails r =
    let reachable = r.queue_reachable p (ground (arith, eq_iff p p)) in
    record {
      seen_reachable = λ x h. elim (Bool-cases (p == x)) [
        | inl same ↦ subst (λ z. Reachable f start z) (ground (arith, eq_iff p x)) reachable
        | inr other ↦ r.seen_reachable x (ground arith)
      ];
      queue_reachable = λ x h. r.queue_reachable x (ground (arith, contains-append queue [] x));
      starts = λ x h. moves got.seen queue [] p x (r.starts x h);
      closed = λ q is ns x h e' m.
          moves got.seen queue [] p x
            (r.closed q is ns x (not_missed f p q got.seen e is ns fails e' h) e' m);
      refs_named = r.refs_named;
      refs_all = λ q is ns i h e' m.
          r.refs_all q is ns i (not_missed f p q got.seen e is ns fails e' h) e' m;
    }
