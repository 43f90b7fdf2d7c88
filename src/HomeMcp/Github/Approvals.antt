-- ===== src/HomeMcp/Github/Approvals.antt =====
-- Which runs wait for an approval.
use nyc_pa_aws_gitops.Prelude.{
  String, ◌≡◌, refl, sym, true, false, Option, none, some, List, [], ◌∷◌, ◌++◌, ◌==◌, arith,
  contains, eq_iff, Bool-cases, inl, inr,
}
use nyc_pa_aws_gitops.Prelude.Members.{contains-append}
use nyc_pa_aws_gitops.Prelude.Results.{ok, err}
use nyc_pa_aws_gitops.HomeMcp.Jobs.Status.{Runs}
use nyc_pa_aws_gitops.HomeMcp.Github.{Run, Repo, Trouble, is_waiting}
use nyc_pa_aws_gitops.HomeMcp.Github.States.{HasRun, this_run, later_run}
use nyc_pa_aws_gitops.HomeMcp.Github.Asking.{
  Asked, approval, approvals_of, approvals_in, approvals, all_failed, pending_of,
}

not_head :
    (y t : String) (ys : List String)
    → y == t ≡ false
    → contains (y ∷ ys) t ≡ true
    → contains ys t ≡ true
not_head y t ys e h = ground arith

not_front :
    (xs ys : List String) (t : String)
    → contains xs t ≡ false
    → contains (xs ++ ys) t ≡ true
    → contains ys t ≡ true
not_front xs ys t e h = ground (arith, contains-append xs ys t)

-- GitHub has answered for the repository `repo`, and `r` is one of its runs that wait.
pub data Waits (repo : String) (r : Run) : List (String × Asked Repo) → Type 0 where
  here :
      (found : Repo) (rs : List (String × Asked Repo))
      → HasRun r found.runs
      → is_waiting r ≡ true
      → Waits repo r ((repo, ok found) ∷ rs)
  later :
      (other : String × Asked Repo) (rs : List (String × Asked Repo))
      → Waits repo r rs
      → Waits repo r (other ∷ rs)

approvals_of-HasRun :
    (g : Runs) (repo : String) (r : Run) (rs : List Run)
    → is_waiting r ≡ true
    → HasRun r rs
    → contains (approvals_of g repo rs) (approval g repo r) ≡ true
unfolding approvals_of
approvals_of-HasRun g repo r _ w (this_run rs) =
    rw w (ground (arith, eq_iff (approval g repo r) (approval g repo r)))
approvals_of-HasRun g repo r _ w (later_run x rs m) =
    ground (arith, approvals_of-HasRun g repo r rs w m)

approvals-Waits :
    (g : Runs) (repo : String) (r : Run) (results : List (String × Asked Repo))
    → Waits repo r results
    → contains (approvals g results) (approval g repo r) ≡ true
unfolding approvals
approvals-Waits g repo r _ (here found rs m w) =
    rw
      (
        contains-append (approvals_of g repo found.runs) (approvals g rs) (approval g repo r),
        approvals_of-HasRun g repo r found.runs w m,
      )
      refl
approvals-Waits g repo r _ (later (other, res) rs m) =
    rw
      (
        contains-append (approvals_in g other res) (approvals g rs) (approval g repo r),
        approvals-Waits g repo r rs m,
      )
      (ground arith)

-- A phrase is that of a run that waits.
pub data Justified (g : Runs) (t : String) (results : List (String × Asked Repo)) : Type 0 where
  justified :
      (repo : String) (r : Run)
      → Waits repo r results
      → t ≡ approval g repo r
      → Justified g t results

Justified-later :
    (g : Runs) (t : String) (first : String × Asked Repo) (results : List (String × Asked Repo))
    → Justified g t results
    → Justified g t (first ∷ results)
Justified-later g t first results (justified repo r w e) =
    justified repo r (later first results w) e

-- A phrase of the runs `rs` is that of one that waits.
data Of (g : Runs) (repo t : String) (rs : List Run) : Type 0 where
  of_run : (r : Run) → HasRun r rs → is_waiting r ≡ true → t ≡ approval g repo r → Of g repo t rs

Of-later :
    (g : Runs) (repo t : String) (x : Run) (rs : List Run) → Of g repo t rs → Of g repo t (x ∷ rs)
Of-later g repo t x rs (of_run r m w e) = of_run r (later_run x rs m) w e

approvals_of-Of :
    (g : Runs) (repo t : String) (rs : List Run)
    → contains (approvals_of g repo rs) t ≡ true
    → Of g repo t rs
unfolding approvals_of
approvals_of-Of g repo t [] h = cc
approvals_of-Of g repo t (x ∷ rs) h = elim (Bool-cases (is_waiting x)) [
  | inr w ↦ Of-later g repo t x rs (approvals_of-Of g repo t rs (rw w at h))
  | inl w ↦ elim (Bool-cases (approval g repo x == t)) [
    | inl e ↦
        let same : approval g repo x ≡ t = ground (arith, eq_iff (approval g repo x) t) in
        of_run x (this_run rs) w (sym same)
    | inr e ↦ Of-later g repo t x rs (
        approvals_of-Of g repo t rs
          (not_head (approval g repo x) t (approvals_of g repo rs) e (rw w at h)))
  ]
]

Of-Justified :
    (g : Runs) (repo t : String) (found : Repo) (results : List (String × Asked Repo))
    → Of g repo t found.runs
    → Justified g t ((repo, ok found) ∷ results)
Of-Justified g repo t found results (of_run r m w e) = justified repo r (here found results m w) e

approvals-Justified :
    (g : Runs) (t : String) (results : List (String × Asked Repo))
    → contains (approvals g results) t ≡ true
    → Justified g t results
unfolding approvals
approvals-Justified g t [] h = cc
approvals-Justified g t ((repo, err e) ∷ results) h =
    Justified-later g t (repo, err e) results (approvals-Justified g t results h)
approvals-Justified g t ((repo, ok found) ∷ results) h =
    elim (Bool-cases (contains (approvals_of g repo found.runs) t)) [
      | inl m ↦ Of-Justified g repo t found results (approvals_of-Of g repo t found.runs m)
      | inr m ↦
          Justified-later g t (repo, ok found) results
            (approvals-Justified g t results
              (not_front (approvals_of g repo found.runs) (approvals g results) t m h))
    ]

-- GitHub has answered for no repository.
pub data Unanswered : List (String × Asked Repo) → Type 0 where
  no_repo : Unanswered []
  unanswered :
      (repo : String) (e : Trouble) (rs : List (String × Asked Repo))
      → Unanswered rs
      → Unanswered ((repo, err e) ∷ rs)

all_failed-Unanswered :
    (results : List (String × Asked Repo)) → all_failed results ≡ true → Unanswered results
unfolding all_failed
all_failed-Unanswered [] h = no_repo
all_failed-Unanswered ((repo, err e) ∷ rs) h = unanswered repo e rs (all_failed-Unanswered rs h)
all_failed-Unanswered ((repo, ok found) ∷ rs) h = cc

-- What is said of the approvals: nothing known, when GitHub has answered for no repository; else phrases,
-- which are those of the runs that wait.
pub data Pending (g : Runs) (results : List (String × Asked Repo))
    : Option (List String) → Type 0 where
  unknown : Unanswered results → Pending g results none
  known :
      (phrases : List String)
      → ((repo : String) (r : Run)
          → Waits repo r results
          → contains phrases (approval g repo r) ≡ true)
      → ((t : String) → contains phrases t ≡ true → Justified g t results)
      → Pending g results (some phrases)

-- `pending_approvals` answers that nothing is known only when GitHub has answered for no repository, and
-- else with phrases, among which is that of every run that waits, of each repository that GitHub answered
-- for, and each of which is that of such a run.
pub pending_of-Pending :
    (g : Runs) (results : List (String × Asked Repo)) → Pending g results (pending_of g results)
unfolding pending_of
pending_of-Pending g results = elim (Bool-cases (all_failed results)) [
  | inl h ↦ rw h (unknown (all_failed-Unanswered results h))
  | inr h ↦ rw h (
      known (approvals g results) (λ repo r w. approvals-Waits g repo r results w)
        (λ t m. approvals-Justified g t results m))
]
