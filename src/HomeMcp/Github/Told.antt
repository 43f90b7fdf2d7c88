-- ===== src/HomeMcp/Github/Told.antt =====
-- What the words about CI mean.
use nyc_pa_aws_gitops.Prelude.{
  String, ◌<>◌, ◌≡◌, ◌⊎◌, inl, inr, refl, ap, sym, subst, true, false, List, [], ◌∷◌, arith,
  if◌then◌else◌, contains, all_of, Bool-cases, join, sorted,
}
use nyc_pa_aws_gitops.HomeMcp.Github.{
  Run, Pull, run_state, runs_with, states_of, is_ci_of, is_passed, ci_said, ci_of, pr_ci,
}
use nyc_pa_aws_gitops.HomeMcp.Github.States.{
  HasRun, runs_with-HasRun, HasRun-runs_with, HasState, contains-states_of, states_of-contains,
  HasOther, not_all, all_of-contains, Ci, this_run, has_state, has_other, ci, Without,
}

-- What is said of the runs of CI for the commit `sha`, and when.
pub data Verdict (sha : String) (rs : List Run) (said : String) : Type 0 where
  no_ci :
      ((r : Run) → HasRun r rs → is_ci_of sha r ≡ false) → said ≡ "no CI yet" → Verdict sha rs said
  failing :
      (r : Run)
      → Ci sha rs r
      → (run_state r ≡ "failed") ⊎ (run_state r ≡ "timed out")
      → said ≡ "CI failed"
      → Verdict sha rs said
  running :
      (r : Run)
      → Ci sha rs r
      → run_state r ≡ "running"
      → Without sha rs "failed"
      → Without sha rs "timed out"
      → said ≡ "CI running"
      → Verdict sha rs said
  passing :
      (r : Run)
      → Ci sha rs r
      → ((s : Run) → Ci sha rs s → is_passed (run_state s) ≡ true)
      → said ≡ "CI passed"
      → Verdict sha rs said
  mixed :
      (r : Run)
      → Ci sha rs r
      → is_passed (run_state r) ≡ false
      → Without sha rs "failed"
      → Without sha rs "timed out"
      → Without sha rs "running"
      → said ≡ "CI " <> join ", " (sorted (states_of (runs_with (is_ci_of sha) rs)))
      → Verdict sha rs said

without :
    (sha : String) (rs mine : List Run) (s : String)
    → ((r : Run) → Ci sha rs r → HasRun r mine)
    → contains (states_of mine) s ≡ false
    → Without sha rs s
without sha rs mine s to h r c e =
    let m : contains (states_of mine) s ≡ true =
      subst (λ z. contains (states_of mine) z ≡ true) e (states_of-contains r mine (to r c)) in
    ground (arith, m, h)

module _ (sha : String) (rs mine : List Run) (eq : runs_with (is_ci_of sha) rs ≡ mine)
    (from : (r : Run) → HasRun r mine → Ci sha rs r)
    (to : (r : Run) → Ci sha rs r → HasRun r mine) where
  state_found :
      (s said : String)
      → ((r : Run) → Ci sha rs r → run_state r ≡ s → Verdict sha rs said)
      → HasState s mine
      → Verdict sha rs said
  state_found s said make (has_state r m e) = make r (from r m) e

  other_found :
      (said : String)
      → ((r : Run) → Ci sha rs r → is_passed (run_state r) ≡ false → Verdict sha rs said)
      → HasOther mine
      → Verdict sha rs said
  other_found said make (has_other r m e) = make r (from r m) e

  with_state :
      (s said : String)
      → ((r : Run) → Ci sha rs r → run_state r ≡ s → Verdict sha rs said)
      → contains (states_of mine) s ≡ true
      → Verdict sha rs said
  with_state s said make h = state_found s said make (contains-states_of s mine h)

  with_other :
      (said : String)
      → ((r : Run) → Ci sha rs r → is_passed (run_state r) ≡ false → Verdict sha rs said)
      → all_of is_passed (states_of mine) ≡ false
      → Verdict sha rs said
  with_other said make h = other_found said make (not_all mine h)

  -- What is said when no run has failed or timed out.
  abbrev quiet_said : String
  quiet_said =
      if contains (states_of mine) "running"
      then "CI running"
      else if all_of is_passed (states_of mine)
      then "CI passed"
      else "CI " <> join ", " (sorted (states_of mine))

  quiet :
      (r : Run)
      → HasRun r mine
      → Without sha rs "failed"
      → Without sha rs "timed out"
      → Verdict sha rs quiet_said
  quiet r m nf nt = elim (Bool-cases (contains (states_of mine) "running")) [
    | inl g ↦ rw g (with_state "running" "CI running" (λ x c e. running x c e nf nt refl) g)
    | inr g ↦ elim (Bool-cases (all_of is_passed (states_of mine))) [
      | inl a ↦
          rw (g, a)
            (passing r (from r m)
              (λ x c.
                all_of-contains (states_of mine) (run_state x) a
                  (states_of-contains x mine (to x c)))
              refl)
      | inr a ↦
          rw (g, a)
            (with_other _
              (λ x c e.
                mixed x c e nf nt (without sha rs mine "running" to g)
                  (ap (λ z. "CI " <> join ", " (sorted (states_of z))) (sym eq)))
              a)
    ]
  ]

  ci_said-Verdict : (r : Run) → HasRun r mine → Verdict sha rs (ci_said (states_of mine))
  ci_said-Verdict r m =
      let states = states_of mine in
      elim (Bool-cases (contains states "failed")) [
        | inl f ↦ rw f (with_state "failed" "CI failed" (λ x c e. failing x c (inl e) refl) f)
        | inr f ↦ elim (Bool-cases (contains states "timed out")) [
          | inl t ↦
              rw (f, t) (with_state "timed out" "CI failed" (λ x c e. failing x c (inr e) refl) t)
          | inr t ↦
              rw (f, t)
                (quiet r m (without sha rs mine "failed" to f)
                  (without sha rs mine "timed out" to t))
        ]
      ]

empty_has : {C : Type 0} {r : Run} → HasRun r [] → C
empty_has m = elim m [ ]

found-Ci :
    (sha : String) (rs : List Run) (r : Run) → HasRun r (runs_with (is_ci_of sha) rs) → Ci sha rs r
found-Ci sha rs r m = let (n, t) = HasRun-runs_with (is_ci_of sha) r rs m in ci n t

Ci-found :
    (sha : String) (rs : List Run) (r : Run) → Ci sha rs r → HasRun r (runs_with (is_ci_of sha) rs)
Ci-found sha rs r (ci m t) = runs_with-HasRun (is_ci_of sha) r rs t m

none_found :
    (sha : String) (rs : List Run) (r : Run)
    → runs_with (is_ci_of sha) rs ≡ []
    → HasRun r rs
    → is_ci_of sha r ≡ false
none_found sha rs r e m = elim (Bool-cases (is_ci_of sha r)) [
  | inr n ↦ n
  | inl y ↦ empty_has (subst (λ z. HasRun r z) e (runs_with-HasRun (is_ci_of sha) r rs y m))
]

ci_of-Verdict :
    (sha : String) (rs mine : List Run)
    → runs_with (is_ci_of sha) rs ≡ mine
    → Verdict sha rs (ci_of mine)
ci_of-Verdict sha rs [] e = no_ci (λ r m. none_found sha rs r e m) refl
ci_of-Verdict sha rs (r ∷ mine) e =
    ci_said-Verdict sha rs (r ∷ mine) e
      (λ x m. found-Ci sha rs x (subst (λ z. HasRun x z) (sym e) m))
      (λ x c. subst (λ z. HasRun x z) e (Ci-found sha rs x c)) r (this_run mine)

-- What `_pr_ci` says of a pull request: that there is no CI when no run of CI is for its commit; a failure
-- when one of them failed or timed out; that it runs when one runs and none failed or timed out; that it
-- passed when there is one and each of them succeeded or was skipped; and else, with one that did neither
-- and none that failed, timed out or runs, the states of all.
pub pr_ci-Verdict : (p : Pull) (rs : List Run) → Verdict p.head_sha rs (pr_ci p rs)
unfolding pr_ci
pr_ci-Verdict p rs = ci_of-Verdict p.head_sha rs (runs_with (is_ci_of p.head_sha) rs) refl
