-- ===== src/HomeMcp/Updates/Walk/Visits.antt =====
-- The walk visits the files that can be reached by includes, and no other.
use nyc_pa_aws_gitops.Prelude.{
  ℕ, zero, suc, String, ◌≡◌, ◌↔◌, inl, inr, refl, subst, true, Option, some, List, [], ◌∷◌, ◌++◌,
  arith, contains, Bool-cases,
}
use nyc_pa_aws_gitops.Prelude.Results.{ok, err}
use nyc_pa_aws_gitops.HomeMcp.Updates.Images.{
  http_error, yaml_error, value_error, key_error, crash, Step,
}
use nyc_pa_aws_gitops.HomeMcp.Updates.Walk.{Files, Found, nothing, Page, page, visit, walk}
use nyc_pa_aws_gitops.HomeMcp.Updates.Walk.Reached.{
  Reachable, listed, included, Named, named, Reached, begins, skips, reads, misses,
}

visited :
    (f : Files) (start queue : List String) (p : String) (got last : Found) (fuel : ℕ)
    (r : Step Page)
    → page f p ≡ r
    → Reached f start (p ∷ queue) got
    → ((more : List String) (next : Found)
        → Reached f start (queue ++ more) next
        → walk f fuel (queue ++ more) next ≡ some (ok last)
        → Reached f start [] last)
    → ◌≡◌ {A = Option (Step Found)}
        (elim (visit p got r) [
          | ok (more, next) ↦ walk f fuel (queue ++ more) next
          | err e ↦ some (err e)
        ])
        (some (ok last))
    → Reached f start [] last
unfolding visit
visited f start queue p got last fuel (ok (images, includes)) e r later h =
    later includes _ (reads f start queue p got images includes e r) h
visited f start queue p got last fuel (err (http_error name)) e r later h =
    later [] _ (misses f start queue p got (http_error name) _ e r) h
visited f start queue p got last fuel (err yaml_error) e r later h =
    later [] _ (misses f start queue p got yaml_error _ e r) h
visited f start queue p got last fuel (err (value_error name)) e r later h = cc
visited f start queue p got last fuel (err key_error) e r later h = cc
visited f start queue p got last fuel (err (crash name)) e r later h = cc

walk-Reached :
    (f : Files) (start : List String) (fuel : ℕ) (queue : List String) (got last : Found)
    → Reached f start queue got
    → walk f fuel queue got ≡ some (ok last)
    → Reached f start [] last
unfolding walk
walk-Reached f start zero queue got last r h = cc
walk-Reached f start (suc fuel) [] got last r h = subst (λ z. Reached f start [] z) (ground arith) r
walk-Reached f start (suc fuel) (p ∷ queue) got last r h = elim (Bool-cases (contains got.seen p)) [
  | inl s ↦ walk-Reached f start fuel queue got last (skips f start queue p got s r) (rw s at h)
  | inr s ↦
      visited f start queue p got last fuel (page f p) refl r
        (λ more next r' h'. walk-Reached f start fuel (queue ++ more) next last r' h') (rw s at h)
]

-- What the walk from `start` has found at its end.
pub record IsWalked (f : Files) (start : List String) (got : Found) : Type 0 where
  pub seen_iff : (p : String) → (contains got.seen p ≡ true) ↔ Reachable f start p
  pub refs_iff : (i : String) → (contains got.refs i ≡ true) ↔ Named f start i

Reachable-seen :
    (f : Files) (start : List String) (got : Found) (p : String)
    → Reached f start [] got
    → Reachable f start p
    → contains got.seen p ≡ true
Reachable-seen f start got p r (listed _ h) = ground (arith, r.starts p h)
Reachable-seen f start got p r (included q images includes _ by e m) =
    ground (arith, r.closed q images includes p (Reachable-seen f start got q r by) e m)

Named-refs :
    (f : Files) (start : List String) (got : Found) (i : String)
    → Reached f start [] got
    → Named f start i
    → contains got.refs i ≡ true
Named-refs f start got i r (named q images includes by e m) =
    r.refs_all q images includes i (Reachable-seen f start got q r by) e m

-- When the walk from the paths `start` ends well, the paths that it has seen are those that can be
-- reached from `start` by the includes of files that can be read, and its images are those that stand in
-- a file that can be reached and read.
pub walk-IsWalked :
    (f : Files) (start : List String) (fuel : ℕ) (got : Found)
    → walk f fuel start nothing ≡ some (ok got)
    → IsWalked f start got
walk-IsWalked f start fuel got h =
    let r = walk-Reached f start fuel start nothing got (begins f start) h in
    record {
      seen_iff = λ p. (r.seen_reachable p, Reachable-seen f start got p r);
      refs_iff = λ i. (r.refs_named i, Named-refs f start got i r);
    }
