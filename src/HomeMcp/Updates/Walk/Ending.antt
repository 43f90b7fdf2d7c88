-- ===== src/HomeMcp/Updates/Walk/Ending.antt =====
-- The walk ends: each turn lowers the count of the paths in the queue and of the includes of the files
-- that were not seen.
use nyc_pa_aws_gitops.Prelude.{
  ℕ, zero, suc, ◌+◌, ◌≤◌, String, ◌≡◌, ◌≢◌, inl, inr, refl, true, false, Option, none, some, List,
  [], ◌∷◌, ◌++◌, arith, if◌then◌else◌, contains, ◌==◌, eq_iff, Bool-cases, length, length-append,
}
use nyc_pa_aws_gitops.Prelude.Results.{ok, err}
use nyc_pa_aws_gitops.HomeMcp.Updates.Images.{
  http_error, yaml_error, value_error, key_error, crash, Step,
}
use nyc_pa_aws_gitops.HomeMcp.Updates.Walk.{Files, Found, Page, page, visit, walk}

-- The count of a file's includes.
abbrev count : Step Page → ℕ
count (ok (images, includes)) = length includes
count (err e) = 0

-- The includes of the files that were not seen.
unfoldable pub pending : Files → List String → List String → ℕ
pending f seen [] = 0
pending f seen (p ∷ files) =
    let rest = pending f seen files in if contains seen p then rest else count (page f p) + rest

-- The files of the repository are among `files`.
abbrev pub Holds : Files → List String → Type 0
Holds f files =
    (p : String) → contains files p ≡ false → f.text p ≡ err (http_error "HTTPStatusError")

pending_less :
    (f : Files) (seen files : List String) (p : String)
    → pending f (p ∷ seen) files ≤ pending f seen files
unfolding pending
pending_less f seen [] p = omega arith
pending_less f seen (q ∷ files) p = ground (arith, pending_less f seen files p)

pending-seen :
    (f : Files) (seen files : List String) (p : String)
    → contains seen p ≡ false
    → contains files p ≡ true
    → pending f (p ∷ seen) files + count (page f p) ≤ pending f seen files
unfolding pending
pending-seen f seen [] p s h = ground arith
pending-seen f seen (q ∷ files) p s h = elim (Bool-cases (q == p)) [
  | inl same ↦
      let names : q ≡ p = ground (arith, eq_iff q p) in
      let less = pending_less f seen files p in
      let self : p == p ≡ true = ground (arith, eq_iff p p) in
      rw (names, s, self) (omega (arith, less))
  | inr other ↦ ground (arith, pending-seen f seen files p s)
]

count_absent :
    (f : Files) (files : List String) (p : String)
    → Holds f files
    → contains files p ≡ false
    → count (page f p) ≡ 0
unfolding page
count_absent f files p holds h = rw (holds p h) refl

-- What a path not seen takes with it.
spent :
    (f : Files) (files seen : List String) (p : String)
    → Holds f files
    → contains seen p ≡ false
    → pending f (p ∷ seen) files + count (page f p) ≤ pending f seen files
spent f files seen p holds s = elim (Bool-cases (contains files p)) [
  | inl m ↦ pending-seen f seen files p s m
  | inr m ↦ omega (arith, pending_less f seen files p, count_absent f files p holds m)
]

after_visit :
    (f : Files) (files queue : List String) (p : String) (got : Found) (fuel : ℕ) (r : Step Page)
    → length queue + pending f (p ∷ got.seen) files + count r + 1 ≤ fuel
    → ((more : List String) (next : Found)
        → length (queue ++ more) + pending f next.seen files + 1 ≤ fuel
        → walk f fuel (queue ++ more) next ≢ none)
    → ◌≢◌ {A = Option (Step Found)}
        (elim (visit p got r) [
          | ok (more, next) ↦ walk f fuel (queue ++ more) next
          | err e ↦ some (err e)
        ])
        none
unfolding visit
after_visit f files queue p got fuel (ok (images, includes)) h later =
    later includes _ (omega (arith, length-append queue includes, h))
after_visit f files queue p got fuel (err (http_error name)) h later =
    later [] _ (omega (arith, length-append queue [], h))
after_visit f files queue p got fuel (err yaml_error) h later =
    later [] _ (omega (arith, length-append queue [], h))
after_visit f files queue p got fuel (err (value_error name)) h later = λ e. cc
after_visit f files queue p got fuel (err key_error) h later = λ e. cc
after_visit f files queue p got fuel (err (crash name)) h later = λ e. cc

-- Over a repository whose files are among `files`, where any other path is answered with an HTTP error,
-- the walk ends within as many turns as there are paths in the queue and includes in the files that were
-- not seen, and one.
pub walk_ends :
    (f : Files) (files : List String)
    → Holds f files
    → (fuel : ℕ) (queue : List String) (got : Found)
    → length queue + pending f got.seen files + 1 ≤ fuel
    → walk f fuel queue got ≢ none
unfolding walk
walk_ends f files holds zero queue got h = λ e. omega arith
walk_ends f files holds (suc fuel) [] got h = λ e. cc
walk_ends f files holds (suc fuel) (p ∷ queue) got h = elim (Bool-cases (contains got.seen p)) [
  | inl s ↦ rw s (walk_ends f files holds fuel queue got (omega (arith, h)))
  | inr s ↦ rw s (
      after_visit f files queue p got fuel (page f p)
        (omega (arith, h, spent f files got.seen p holds s))
        (λ more next h'. walk_ends f files holds fuel (queue ++ more) next h'))
]
