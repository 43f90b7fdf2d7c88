-- ===== src/MemoryCheck/Limited.antt =====
-- The script ends well only when each service has a limit.
use nyc_pa_aws_gitops.Prelude.{
  String, ◌≡◌, refl, sym, subst, Option, none, some, List, [], ◌∷◌, Bool-cases, inl, inr, All,
}
use nyc_pa_aws_gitops.Prelude.Results.{ok, >>=-eq-ok, ok_inj}
use nyc_pa_aws_gitops.Prelude.Dict.{Dict, get}
use nyc_pa_aws_gitops.Prelude.Json.{Json, null, bool, num, str, arr, obj, Fields, to_dict}
use nyc_pa_aws_gitops.MemoryCheck.{
  Input, is_set, or_null, limit_of, missing, Ending, unreadable, exit_code, decided, items_of,
  checked, loaded, main,
}
use nyc_pa_aws_gitops.MemoryCheck.Limits.{IsLimited, limit_of-IsLimited}

not_empty : {C : Type 0} {x : String} {xs : List String} → x ∷ xs ≡ [] → C
not_empty h = cc

absurd_code : {C : Type 0} {e : Ending} → unreadable ≡ e → exit_code e ≡ 0 → C
absurd_code {C} {e} h z = cc

missing-none :
    (i : Input) (services : Dict Json)
    → missing i services ≡ ok []
    → All (λ s. IsLimited i s.1) services
unfolding missing
missing-none i [] h = tt
missing-none i ((name, svc) ∷ services) h =
    let (limit, e, h1) = >>=-eq-ok (limit_of i svc) _ h in
    let (rest, e2, h2) = >>=-eq-ok (missing i services) _ h1 in
    elim (Bool-cases (is_set limit)) [
      | inl b ↦
          let none_left : rest ≡ [] = ok_inj (rw b at h2) in
          (
            limit_of-IsLimited i svc limit e b,
            missing-none i services (subst (λ z. missing i services ≡ ok z) none_left e2),
          )
      | inr b ↦ not_empty (ok_inj (rw b at h2))
    ]

-- What exit code 0 means: the input is an object, and each entry of its table of services has a limit.
pub data Passed (i : Input) : Type 0 where
  passed :
      (fs : Fields) (services : Dict Json)
      → i.json ≡ some (obj fs)
      → items_of (or_null (get "services" (to_dict fs))) ≡ ok services
      → All (λ s. IsLimited i s.1) services
      → Passed i

decided_fine :
    (services : Dict Json) (names : List String)
    → exit_code (decided services names) ≡ 0
    → names ≡ []
decided_fine services [] h = refl
decided_fine services (n ∷ ns) h = cc

checked-Passed :
    (i : Input) (fs : Fields) (e : Ending)
    → i.json ≡ some (obj fs)
    → checked i (or_null (get "services" (to_dict fs))) ≡ ok e
    → exit_code e ≡ 0
    → Passed i
checked-Passed i fs e j h z =
    let (services, s, h1) = >>=-eq-ok (items_of (or_null (get "services" (to_dict fs)))) _ h in
    let (names, m, h2) = >>=-eq-ok (missing i services) _ h1 in
    let ends : exit_code (decided services names) ≡ 0 =
      subst (λ x. exit_code x ≡ 0) (sym (ok_inj h2)) z in
    passed fs services j s (
      missing-none i services
        (subst (λ x. missing i services ≡ ok x) (decided_fine services names ends) m))

loaded-Passed :
    (i : Input) (j : Option Json) (e : Ending)
    → i.json ≡ j
    → loaded i j ≡ ok e
    → exit_code e ≡ 0
    → Passed i
loaded-Passed i none e j h z = absurd_code (ok_inj h) z
loaded-Passed i (some (obj fs)) e j h z = checked-Passed i fs e j h z
loaded-Passed i (some null) e j h z = absurd_code (ok_inj h) z
loaded-Passed i (some (bool b)) e j h z = absurd_code (ok_inj h) z
loaded-Passed i (some (num t)) e j h z = absurd_code (ok_inj h) z
loaded-Passed i (some (str t)) e j h z = absurd_code (ok_inj h) z
loaded-Passed i (some (arr xs)) e j h z = absurd_code (ok_inj h) z

-- When the script ends with exit code 0, its input is an object whose table of services is empty or an
-- object, and each service has, at `mem_limit` or at `deploy.resources.limits.memory`, a limit that Python
-- turns into a whole number other than zero: a number, or a text with the digits of a number, some of them
-- behind a point or none, and a unit of bytes that is known, with spaces between and around them. A negative
-- number is such a limit.
pub main-Passed : (i : Input) (e : Ending) → main i ≡ ok e → exit_code e ≡ 0 → Passed i
unfolding main
main-Passed i e h z = loaded-Passed i i.json e refl h z
