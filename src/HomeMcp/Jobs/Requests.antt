-- ===== src/HomeMcp/Jobs/Requests.antt =====
-- What `run_job` may send to GitHub.
use nyc_pa_aws_gitops.Prelude.{
  ℕ, String, ◌≡◌, ◌≢◌, ◌⊎◌, inl, inr, refl, ap, ◌∙◌, Bool, true, false, not, ◌||◌, Option, none,
  some, List, [], ◌∷◌, ◌==◌, eqb, if◌then◌else◌, contains, keep, ltb, ◌-◌, sorted, insert_sorted,
  str_le, arith, eq_iff, Bool-cases,
}
use nyc_pa_aws_gitops.Prelude.Dict.{Dict, get, keys, has}
use nyc_pa_aws_gitops.Prelude.Json.{Json}
use nyc_pa_aws_gitops.Prelude.Python.{Python}
use nyc_pa_aws_gitops.Prelude.Results.{Result, ok, err}
use nyc_pa_aws_gitops.HomeMcp.Jobs.{
  Settings, Spec, Post, Jobs, Network, fetched, cache_seconds, load_cached, load_registry, texts,
  is_one_of, complaint, refused, refusal, put_arg, in_order, answered, checked, request, loaded,
  run_job,
}

cons_nil : {x : String} {xs : List String} → x ∷ xs ≢ []
cons_nil h = cc

if_none :
    (b : Bool) (c : Option String) (text : String)
    → ◌≡◌ {A = Option String} (if b then c else some text) none
    → (b ≡ true) × (c ≡ none)
if_none true c text h = (refl, h)
if_none false c text h = cc

complaint_step :
    (job : String) (args : Dict String) (name : String) (values : List String)
    (allowed : Dict (List String))
    → complaint job args ((name, values) ∷ allowed) ≡ none
    → (is_one_of values (get name args) ≡ true) × (complaint job args allowed ≡ none)
unfolding complaint
complaint_step job args name values allowed h =
    if_none (is_one_of values (get name args)) (complaint job args allowed) _ h

complaint-is_one_of :
    (job : String) (args : Dict String) (allowed : Dict (List String))
    → complaint job args allowed ≡ none
    → (k : String) (vs : List String) → get k allowed ≡ some vs
    → is_one_of vs (get k args) ≡ true
unfolding get
complaint-is_one_of job args [] h k vs g = cc
complaint-is_one_of job args ((name, values) ∷ allowed) h k vs g =
    let (a, b) = complaint_step job args name values allowed h in
    ground (arith, eq_iff k name, complaint-is_one_of job args allowed b k vs)

one_of_some :
    (vs : List String) (o : Option String)
    → is_one_of vs o ≡ true
    → (v : String) × (o ≡ some v) × (contains vs v ≡ true)
unfolding is_one_of
one_of_some vs none h = cc
one_of_some vs (some v) h = (v, refl, h)

in_order_step :
    (args : Dict String) (name v : String) (values : List String) (allowed : Dict (List String))
    → get name args ≡ some v
    → in_order args ((name, values) ∷ allowed) ≡ (name, v) ∷ in_order args allowed
unfolding in_order
in_order_step args name v values allowed h = ap (λ o. put_arg name o (in_order args allowed)) h

keys-in_order :
    (job : String) (args : Dict String) (allowed : Dict (List String))
    → complaint job args allowed ≡ none
    → keys (in_order args allowed) ≡ keys allowed
unfolding in_order keys
keys-in_order job args [] h = refl
keys-in_order job args ((name, values) ∷ allowed) h =
    let (a, b) = complaint_step job args name values allowed h in
    let (v, e, c) = one_of_some values (get name args) a in
    rw (in_order_step args name v values allowed e)
      (ap (λ r. name ∷ r) (keys-in_order job args allowed b))

get-in_order :
    (job : String) (args : Dict String) (allowed : Dict (List String))
    → complaint job args allowed ≡ none
    → (k : String) (vs : List String) → get k allowed ≡ some vs
    → get k (in_order args allowed) ≡ get k args
unfolding get
get-in_order job args [] h k vs g = cc
get-in_order job args ((name, values) ∷ allowed) h k vs g =
    let (a, b) = complaint_step job args name values allowed h in
    let (v, e, c) = one_of_some values (get name args) a in
    rw (in_order_step args name v values allowed e)
      (ground (arith, eq_iff k name, e, get-in_order job args allowed b k vs))

insert_sorted-cons : (x : String) (xs : List String) → insert_sorted x xs ≢ []
unfolding insert_sorted
insert_sorted-cons x [] h = cc
insert_sorted-cons x (y ∷ ys) h = elim (Bool-cases (str_le x y)) [
  | inl e ↦ cons_nil (rw e at h)
  | inr e ↦ cons_nil (rw e at h)
]

sorted_empty : (xs : List String) → sorted xs ≡ [] → xs ≡ []
unfolding sorted
sorted_empty [] h = refl
sorted_empty (x ∷ xs) h = elim (insert_sorted-cons x (sorted xs) h) [ ]

refused-none :
    (job : String) (extra : List String) (c : Option String)
    → refused job extra c ≡ none
    → (extra ≡ []) × (c ≡ none)
refused-none job [] c h = (refl, h)
refused-none job (x ∷ extra) c h = cc

-- A request that `run_job` may send for the arguments `args`: for a job of the registry, with exactly
-- the job's arguments in the registry's order, each with one of its allowed values, the one given.
pub record IsGranted (jobs : Dict Spec) (args : Dict String) (p : Post) : Type 0 where
  pub spec : Spec
  pub listed : get p.job jobs ≡ some spec
  pub in_turn : keys p.args ≡ keys spec.args
  pub given :
      (k : String) (vs : List String) → get k spec.args ≡ some vs → get k p.args ≡ get k args
  pub allowed :
      (k : String) (vs : List String)
      → get k spec.args ≡ some vs
      → is_one_of vs (get k p.args) ≡ true
  pub none_extra : keep (λ k. not (has k spec.args)) (keys args) ≡ []

refusal-IsGranted :
    (jobs : Dict Spec) (job id : String) (args : Dict String) (spec : Spec)
    → get job jobs ≡ some spec
    → refusal job args spec.args ≡ none
    → IsGranted jobs args (record { job = job; args = in_order args spec.args; request_id = id })
unfolding refusal
refusal-IsGranted jobs job id args spec g h =
    let (a, b) = refused-none job _ _ h in
    record {
      spec = spec;
      listed = g;
      in_turn = (keys-in_order job args spec.args b);
      given = (get-in_order job args spec.args b);
      allowed = (λ k vs e.
          rw (get-in_order job args spec.args b k vs e)
            (complaint-is_one_of job args spec.args b k vs e));
      none_extra = (sorted_empty _ a);
    }

-- Nothing was sent, or one granted request.
abbrev pub Sends : Jobs → Dict Spec → Dict String → Jobs × Result String String → Type 0
Sends s jobs args r =
    (r.0.posted ≡ s.posted) ⊎ ((p : Post) × (r.0.posted ≡ p ∷ s.posted) × IsGranted jobs args p)

posted-answered : (s : Jobs) (p : Post) (m : Result String ℕ) → (answered s p m).0.posted ≡ s.posted
unfolding answered
posted-answered s p (err e) = refl
posted-answered s p (ok code) = elim (Bool-cases (eqb code 200 || (eqb code 201 || eqb code 204))) [
  | inl e ↦ rw e refl
  | inr e ↦ rw e refl
]

checked-Sends :
    (net : Network) (s : Jobs) (jobs : Dict Spec) (args : Dict String) (p : Post)
    (o : Option String)
    → (o ≡ none → IsGranted jobs args p)
    → Sends s jobs args (checked net s p o)
unfolding checked
checked-Sends net s jobs args p (some text) h = inl refl
checked-Sends net s jobs args p none h =
    inr (p, posted-answered (record s { posted = p ∷ s.posted }) p (net.post p), h refl)

request-Sends :
    (net : Network) (s : Jobs) (jobs : Dict Spec) (id job : String) (args : Dict String)
    (o : Option Spec)
    → get job jobs ≡ o
    → Sends s jobs args (request net s jobs id job args o)
unfolding request
request-Sends net s jobs id job args none g = inl refl
request-Sends net s jobs id job args (some spec) g =
    checked-Sends net s jobs args _ (refusal job args spec.args)
      (refusal-IsGranted jobs job id args spec g)

-- The registry that is used, where there is one.
abbrev pub registry_of : Result String (Dict Spec) → Dict Spec
registry_of (err e) = []
registry_of (ok jobs) = jobs

loaded-Sends :
    (net : Network) (s : Jobs) (m : Result String (Dict Spec)) (id job : String)
    (args : Dict String)
    → Sends s (registry_of m) args (loaded net s m id job args)
unfolding loaded
loaded-Sends net s (err e) id job args = inl refl
loaded-Sends net s (ok jobs) id job args = request-Sends net s jobs id job args (get job jobs) refl

posted-fetched :
    (t : ℕ) (s : Jobs) (m : Result String (Dict Spec)) → (fetched t s m).0.posted ≡ s.posted
posted-fetched t s (err e) = refl
posted-fetched t s (ok jobs) = refl

posted-load_cached :
    (net : Network) (t : ℕ) (s : Jobs) (d : Dict Spec) → (load_cached net t s d).0.posted ≡ s.posted
unfolding load_cached
posted-load_cached net t s [] = posted-fetched t s net.fetch
posted-load_cached net t s (j ∷ jobs) = elim (Bool-cases (ltb (t - s.at) cache_seconds)) [
  | inl e ↦ rw e refl
  | inr e ↦ rw e (posted-fetched t s net.fetch)
]

Sends-load :
    (s s' : Jobs) (jobs : Dict Spec) (args : Dict String) (r : Jobs × Result String String)
    → s'.posted ≡ s.posted
    → Sends s' jobs args r
    → Sends s jobs args r
Sends-load s s' jobs args r e (inl h) = inl (h ∙ e)
Sends-load s s' jobs args r e (inr (p, h, g)) = inr (p, h ∙ ap (λ l. p ∷ l) e, g)

-- As `Sends`, and a request is sent only when jobs are switched on and there is a token.
abbrev pub SendsOn :
    Settings → Jobs → Dict Spec → Dict String → Jobs × Result String String → Type 0
SendsOn c s jobs args r =
    (r.0.posted ≡ s.posted)
    ⊎ ((p : Post) × (r.0.posted ≡ p ∷ s.posted)
        × IsGranted jobs args p
        × (c.enabled ≡ true)
        × ((c.token == "") ≡ false))

module _ (py : Python) (c : Settings) (net : Network) (t : ℕ) (id : String) (s : Jobs) where
  -- Whatever is asked for and whatever GitHub answers, `run_job` sends no request, or one. One that it
  -- sends is for a job of the registry it read, with exactly the job's arguments, in the registry's
  -- order, each the text that was given and one of the allowed values. It is sent only when jobs are
  -- switched on and there is a token.
  pub run_job-SendsOn :
      (job : String) (args : Dict Json)
      → SendsOn c s
          (registry_of (load_registry net t s).1)
          (texts py args)
          (run_job py c net t id s job args)
  unfolding run_job
  run_job-SendsOn job args = elim (Bool-cases c.enabled) [
    | inr e ↦ rw e (inl refl)
    | inl e ↦ elim (Bool-cases (c.token == "")) [
      | inl f ↦ rw (e, f) (inl refl)
      | inr f ↦
          (let l = load_registry net t s in
            rw (e, f)
              (elim (Sends-load s l.0 (registry_of l.1) (texts py args)
                (loaded net l.0 l.1 id job (texts py args)) (posted-load_cached net t s s.jobs)
                (loaded-Sends net l.0 l.1 id job (texts py args))) [
                  | inl h ↦ inl h
                  | inr (p, h, g) ↦ inr (p, h, g, refl, refl)
                ]))
    ]
  ]
