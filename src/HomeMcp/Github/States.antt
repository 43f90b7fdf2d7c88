-- ===== src/HomeMcp/Github/States.antt =====
-- The runs that pass a test, and their states.
use nyc_pa_aws_gitops.Prelude.{
  String, ◌≡◌, ◌≢◌, ◌⊎◌, inl, inr, subst, Bool, true, false, List, [], ◌∷◌, ◌==◌, arith, contains,
  all_of, eq_iff, Bool-cases,
}
use nyc_pa_aws_gitops.HomeMcp.Updates.Images.{add_new}
use nyc_pa_aws_gitops.HomeMcp.Github.{Run, run_state, runs_with, states_of, is_ci_of, is_passed}

-- The run `r` is one of the runs.
pub data HasRun (r : Run) : List Run → Type 0 where
  this_run : (rs : List Run) → HasRun r (r ∷ rs)
  later_run : (other : Run) (rs : List Run) → HasRun r rs → HasRun r (other ∷ rs)

pub runs_with-HasRun :
    (test : Run → Bool) (r : Run) (rs : List Run)
    → test r ≡ true
    → HasRun r rs
    → HasRun r (runs_with test rs)
unfolding runs_with
runs_with-HasRun test r _ t (this_run rs) = rw t (this_run (runs_with test rs))
runs_with-HasRun test r _ t (later_run other rs m) = elim (Bool-cases (test other)) [
  | inl e ↦ rw e (later_run other (runs_with test rs) (runs_with-HasRun test r rs t m))
  | inr e ↦ rw e (runs_with-HasRun test r rs t m)
]

pub in_front :
    (test : Run → Bool) (r x : Run) (rs : List Run)
    → test x ≡ true
    → (HasRun r (runs_with test rs) → HasRun r rs × (test r ≡ true))
    → HasRun r (x ∷ runs_with test rs)
    → HasRun r (x ∷ rs) × (test r ≡ true)
in_front test r _ rs t back (this_run _) = (this_run rs, t)
in_front test r x rs t back (later_run _ _ m) = let (n, u) = back m in (later_run x rs n, u)

pub not_first :
    (y x : String) (xs : List String)
    → y == x ≡ false
    → contains (add_new y xs) x ≡ true
    → contains xs x ≡ true
not_first y x xs e h = ground arith

pub added : (x : String) (xs : List String) → contains (add_new x xs) x ≡ true
added x xs = ground (arith, eq_iff x x)

pub still :
    (y x : String) (xs : List String) → contains xs x ≡ true → contains (add_new y xs) x ≡ true
still y x xs h = ground arith

pub HasRun-runs_with :
    (test : Run → Bool) (r : Run) (rs : List Run)
    → HasRun r (runs_with test rs)
    → HasRun r rs × (test r ≡ true)
unfolding runs_with
HasRun-runs_with test r [] m = elim m [ ]
HasRun-runs_with test r (x ∷ rs) m = elim (Bool-cases (test x)) [
  | inr e ↦ let (n, t) = HasRun-runs_with test r rs (rw e at m) in (later_run x rs n, t)
  | inl e ↦ in_front test r x rs e (λ n. HasRun-runs_with test r rs n) (rw e at m)
]

-- A run with the state `s` is one of the runs.
pub data HasState (s : String) (rs : List Run) : Type 0 where
  has_state : (r : Run) → HasRun r rs → run_state r ≡ s → HasState s rs

pub HasState-later : (s : String) (x : Run) (rs : List Run) → HasState s rs → HasState s (x ∷ rs)
HasState-later s x rs (has_state r m e) = has_state r (later_run x rs m) e

pub contains-states_of :
    (s : String) (rs : List Run) → contains (states_of rs) s ≡ true → HasState s rs
unfolding states_of
contains-states_of s [] h = cc
contains-states_of s (x ∷ rs) h = elim (Bool-cases (run_state x == s)) [
  | inl e ↦ has_state x (this_run rs) (ground (arith, eq_iff (run_state x) s))
  | inr e ↦
      HasState-later s x rs (contains-states_of s rs (not_first (run_state x) s (states_of rs) e h))
]

pub states_of-contains :
    (r : Run) (rs : List Run) → HasRun r rs → contains (states_of rs) (run_state r) ≡ true
unfolding states_of
states_of-contains r _ (this_run rs) = added (run_state r) (states_of rs)
states_of-contains r _ (later_run x rs m) =
    still (run_state x) (run_state r) (states_of rs) (states_of-contains r rs m)

-- The state of a run that is not one of a success or a skip.
pub data HasOther (rs : List Run) : Type 0 where
  has_other : (r : Run) → HasRun r rs → is_passed (run_state r) ≡ false → HasOther rs

pub HasOther-later : (x : Run) (rs : List Run) → HasOther rs → HasOther (x ∷ rs)
HasOther-later x rs (has_other r m e) = has_other r (later_run x rs m) e

pub all_of-add_new :
    (x : String) (xs : List String)
    → all_of is_passed (add_new x xs) ≡ false
    → (is_passed x ≡ false) ⊎ (all_of is_passed xs ≡ false)
all_of-add_new x xs h = elim (Bool-cases (is_passed x)) [
  | inl c ↦ inr (ground arith)
  | inr c ↦ inl c
]

pub not_all : (rs : List Run) → all_of is_passed (states_of rs) ≡ false → HasOther rs
unfolding states_of
not_all [] h = cc
not_all (x ∷ rs) h = elim (all_of-add_new (run_state x) (states_of rs) h) [
  | inl e ↦ has_other x (this_run rs) e
  | inr e ↦ HasOther-later x rs (not_all rs e)
]

pub all_of-contains :
    (xs : List String) (x : String)
    → all_of is_passed xs ≡ true
    → contains xs x ≡ true
    → is_passed x ≡ true
all_of-contains [] x h m = cc
all_of-contains (y ∷ xs) x h m = elim (Bool-cases (y == x)) [
  | inl e ↦
      let same : y ≡ x = ground (arith, eq_iff y x) in
      subst (λ z. is_passed z ≡ true) same (ground arith)
  | inr e ↦ all_of-contains xs x (ground arith) (ground arith)
]

-- A run of CI for the commit `sha`.
pub data Ci (sha : String) (rs : List Run) (r : Run) : Type 0 where
  ci : HasRun r rs → is_ci_of sha r ≡ true → Ci sha rs r

-- None of the runs of CI for the commit has the state `s`.
abbrev pub Without : String → List Run → String → Type 0
Without sha rs s = (r : Run) → Ci sha rs r → run_state r ≢ s
