-- ===== src/HomeMcp/Updates/Checks/Kept.antt =====
-- Each image of a Compose file that can be reached is checked, and the lines of its check are told.
use nyc_pa_aws_gitops.Prelude.{
  ℕ, String, ◌≡◌, refl, true, Option, none, some, List, [], ◌∷◌, ◌++◌, ◌==◌, arith, contains,
  eq_iff, sorted, Bool-cases, inl, inr, subst,
}
use nyc_pa_aws_gitops.Prelude.Members.{contains-sorted, in_front, behind}
use nyc_pa_aws_gitops.Prelude.Results.{ok, err, ◌>>=◌, >>=-eq-ok, ok_inj, traverse}
use nyc_pa_aws_gitops.HomeMcp.Updates.Images.{Step}
use nyc_pa_aws_gitops.HomeMcp.Updates.Walk.{Files, Found, compose_files, nothing, walk}
use nyc_pa_aws_gitops.HomeMcp.Updates.Walk.Reached.{Named}
use nyc_pa_aws_gitops.HomeMcp.Updates.Walk.Visits.{walk-IsWalked}
use nyc_pa_aws_gitops.HomeMcp.Updates.Checks.{
  Lines, Lookups, both_lines, all_lines, check, check_all, images,
}

-- Each line of `a` is a line of `b`, of the same kind.
pub record Within (a b : Lines) : Type 0 where
  pub urgent : (t : String) → contains a.urgent t ≡ true → contains b.urgent t ≡ true
  pub other : (t : String) → contains a.other t ≡ true → contains b.other t ≡ true
  pub couldnt : (t : String) → contains a.couldnt t ≡ true → contains b.couldnt t ≡ true

first-Within : (a b : Lines) → Within a (both_lines a b)
unfolding both_lines
first-Within a b = record {
  urgent = λ t h. in_front a.urgent b.urgent t h;
  other = λ t h. in_front a.other b.other t h;
  couldnt = λ t h. in_front a.couldnt b.couldnt t h;
}

later-Within : (x a b : Lines) → Within x b → Within x (both_lines a b)
unfolding both_lines
later-Within x a b w = record {
  urgent = λ t h. behind a.urgent b.urgent t (w.urgent t h);
  other = λ t h. behind a.other b.other t (w.other t h);
  couldnt = λ t h. behind a.couldnt b.couldnt t (w.couldnt t h);
}

-- The check of `ref` ends well, with lines that are told in `all`.
pub data Told (w : Lookups) (ref : String) (all : Lines) : Type 0 where
  told : (l : Lines) → check w ref ≡ ok l → Within l all → Told w ref all

Told-later : (w : Lookups) (ref : String) (a b : Lines) → Told w ref b → Told w ref (both_lines a b)
Told-later w ref a b (told l e within) = told l e (later-Within l a b within)

each-Told :
    (w : Lookups) (refs : List String) (ref : String) (lines : List Lines)
    → traverse (check w) refs ≡ ok lines
    → contains refs ref ≡ true
    → Told w ref (all_lines lines)
unfolding traverse all_lines
each-Told w [] ref lines h m = cc
each-Told w (r ∷ refs) ref lines h m =
    let (l, e, h1) = >>=-eq-ok (check w r) _ h in
    let (ls, e2, h2) = >>=-eq-ok (traverse (check w) refs) _ h1 in
    elim (Bool-cases (r == ref)) [
      | inl same ↦
          subst (λ z. Told w ref (all_lines z)) (ok_inj h2)
            (told l (subst (λ z. check w z ≡ ok l) (ground (arith, eq_iff r ref)) e)
              (first-Within l (all_lines ls)))
      | inr other ↦
          subst (λ z. Told w ref (all_lines z)) (ok_inj h2)
            (Told-later w ref l (all_lines ls) (each-Told w refs ref ls e2 (ground arith)))
    ]

after_finish :
    (w : Lookups) (ref : String) (couldnt : List String) (l : Lines)
    → Told w ref l
    → Told w ref
        (record { urgent = l.urgent; other = sorted l.other; couldnt = couldnt ++ l.couldnt })
after_finish w ref couldnt l (told m e within) = told m e (record {
  urgent = within.urgent;
  other = λ t h. rw (contains-sorted l.other t) (within.other t h);
  couldnt = λ t h. behind couldnt l.couldnt t (within.couldnt t h);
})

check_all-Told :
    (w : Lookups) (got : Found) (ref : String) (all : Lines)
    → check_all w got ≡ ok all
    → contains got.refs ref ≡ true
    → Told w ref all
unfolding check_all
check_all-Told w got ref all h m =
    let (lines, e, h1) = >>=-eq-ok (traverse (check w) (sorted got.refs)) _ h in
    subst (λ z. Told w ref z) (ok_inj h1)
      (after_finish w ref got.couldnt (all_lines lines)
        (each-Told w (sorted got.refs) ref lines e (rw (contains-sorted got.refs ref) m)))

images_cases :
    (w : Lookups) (all : Lines) (o : Option (Step Found))
    → ◌≡◌ {A = Option (Step Lines)}
        (elim o [ none ↦ none | some r ↦ some (r >>= check_all w) ])
        (some (ok all))
    → (got : Found) × (o ≡ some (ok got)) × (check_all w got ≡ ok all)
images_cases w all none h = cc
images_cases w all (some (err e)) h = cc
images_cases w all (some (ok got)) h = (got, refl, cc)

-- When the section on the images ends well, each image that stands in a Compose file which can be
-- reached by includes from the three of the code and read has been checked, its check has ended well,
-- and each line of the check is a line of the section, of the same kind.
pub images-Told :
    (f : Files) (w : Lookups) (fuel : ℕ) (all : Lines) (ref : String)
    → images f w fuel ≡ some (ok all)
    → Named f compose_files ref
    → Told w ref all
unfolding images
images-Told f w fuel all ref h n =
    let (got, e, h1) = images_cases w all (walk f fuel compose_files nothing) h in
    let found = (walk-IsWalked f compose_files fuel got e).refs_iff ref in
    check_all-Told w got ref all h1 (found.1 n)
