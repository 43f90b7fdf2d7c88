-- ===== src/Preview/Service/Depends.antt =====
-- `depends_on`: what its filter keeps, and that filtering twice is filtering once.
use nyc_pa_aws_gitops.Prelude.{
  subst, String, ◌≡◌, refl, inl, inr, Bool, true, false, Option, none, some, List, ◌==◌, arith, ap,
  contains, Bool-cases,
}
use nyc_pa_aws_gitops.Prelude.Dict.{Dict, get, set, keep_keys}
use nyc_pa_aws_gitops.Prelude.DictLaws.{
  KeysPass, KeysPass-set, KeysPass-keep_keys, get-set, set_same, keep_keys_all,
}
use nyc_pa_aws_gitops.Prelude.Json.{
  Json, null, bool, num, str, arr, obj, Items, Fields, nil, cons, to_dict, of_dict, to_dict-of_dict,
}
use nyc_pa_aws_gitops.Prelude.Results.{ok, >>=-eq-ok}
use nyc_pa_aws_gitops.Preview.Service.{keep_known, write_depends_on, set_depends_on}

module _ (names : List String) where
  keep_known_idem : (ds ks : Items) → keep_known names ds ≡ ok ks → keep_known names ks ≡ ok ks
  unfolding keep_known
  keep_known_idem nil ks h = ground arith
  keep_known_idem (cons (str d) ds) ks h =
      let (rest, e, f) = >>=-eq-ok (keep_known names ds) _ h in
      elim (Bool-cases (contains names d)) [
        | inl known ↦ ground (arith, keep_known_idem ds rest e)
        | inr unknown ↦ ground (arith, keep_known_idem ds rest e)
      ]
  keep_known_idem (cons (arr x) ds) ks h = cc
  keep_known_idem (cons (obj x) ds) ks h = cc
  keep_known_idem (cons null ds) ks h = keep_known_idem ds ks h
  keep_known_idem (cons (bool x) ds) ks h = keep_known_idem ds ks h
  keep_known_idem (cons (num x) ds) ks h = keep_known_idem ds ks h

  -- Either nothing changes or `depends_on` is written with a value that the filter keeps.
  pub record Outcome (svc out : Dict Json) : Type 0 where
    pub others : (k : String) → (k == "depends_on") ≡ false → get k out ≡ get k svc
    pub pass : (t : String → Bool) → t "depends_on" ≡ true → KeysPass t svc → KeysPass t out
    pub again : set_depends_on names out ≡ ok out

  written :
      (svc : Dict Json) (v : Json)
      → ((d : Dict Json)
          → get "depends_on" d ≡ some v
          → set_depends_on names d ≡ ok (set "depends_on" v d))
      → Outcome svc (set "depends_on" v svc)
  written svc v h = record {
    others = λ k e. rw (get-set, e);
    pass = λ t e p. KeysPass-set t "depends_on" v svc e p;
    again =
        let there : get "depends_on" (set "depends_on" v svc) ≡ some v = rw get-set in
        rw (h _ there) (ap ok (set_same "depends_on" v _ there));
  }

  unchanged :
      (svc out : Dict Json)
      → set_depends_on names svc ≡ ok svc
      → set_depends_on names svc ≡ ok out
      → Outcome svc out
  unchanged svc out e h =
      let same : svc ≡ out = cc in
      subst (Outcome svc) same (record { others = λ k _. refl; pass = λ t _ p. p; again = e })

  keep_dict : (fs : Fields) → Fields
  keep_dict fs = of_dict (keep_keys (contains names) (to_dict fs))

  dict_again :
      (fs : Fields) (d : Dict Json)
      → get "depends_on" d ≡ some (obj (keep_dict fs))
      → set_depends_on names d ≡ ok (set "depends_on" (obj (keep_dict fs)) d)
  unfolding write_depends_on keep_dict
  dict_again fs d e =
      rw (e, to_dict-of_dict)
        (rw (keep_keys_all (contains names) _ (KeysPass-keep_keys (contains names) (to_dict fs))))

  list_again :
      (ds ks : Items)
      → keep_known names ds ≡ ok ks
      → (d : Dict Json) → get "depends_on" d ≡ some (arr ks)
      → set_depends_on names d ≡ ok (set "depends_on" (arr ks) d)
  unfolding write_depends_on
  list_again ds ks h d e = rw e (rw (keep_known_idem ds ks h))

  by_value :
      (svc out : Dict Json) (o : Option Json)
      → get "depends_on" svc ≡ o
      → set_depends_on names svc ≡ ok out
      → Outcome svc out
  unfolding write_depends_on keep_dict
  by_value svc out none e h = unchanged svc out (rw e) h
  by_value svc out (some null) e h = unchanged svc out (rw e) h
  by_value svc out (some (bool b)) e h = unchanged svc out (rw e) h
  by_value svc out (some (num t)) e h = unchanged svc out (rw e) h
  by_value svc out (some (str t)) e h = unchanged svc out (rw e) h
  by_value svc out (some (obj fs)) e h =
      let same : set "depends_on" (obj (keep_dict fs)) svc ≡ out = ground arith in
      subst (Outcome svc) same (written svc (obj (keep_dict fs)) (dict_again fs))
  by_value svc out (some (arr ds)) e h =
      let (ks, kept, f) = >>=-eq-ok (keep_known names ds) _ (rw e at h) in
      let same : set "depends_on" (arr ks) svc ≡ out = cc in
      subst (Outcome svc) same (written svc (arr ks) (list_again ds ks kept))

  -- A written `depends_on` changes no other key, and the filter keeps it as it is.
  pub set_depends_on-Outcome :
      (svc out : Dict Json) → set_depends_on names svc ≡ ok out → Outcome svc out
  set_depends_on-Outcome svc out h = by_value svc out _ refl h
