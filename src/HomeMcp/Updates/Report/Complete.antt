-- ===== src/HomeMcp/Updates/Report/Complete.antt =====
-- A section that fails takes no line of another, and each line is kept in its place.
use nyc_pa_aws_gitops.Prelude.{
  String, ◌<>◌, ◌≡◌, refl, subst, Bool, true, false, not, has_text, List, [], ◌∷◌, ◌==◌, arith,
  contains, keep, Bool-cases, inl, inr, eq_iff,
}
use nyc_pa_aws_gitops.Prelude.Members.{in_front, behind}
use nyc_pa_aws_gitops.Prelude.Results.{ok, err}
use nyc_pa_aws_gitops.HomeMcp.Updates.Images.{Failure, Step}
use nyc_pa_aws_gitops.HomeMcp.Updates.Checks.{Lines, no_lines}
use nyc_pa_aws_gitops.HomeMcp.Updates.Report.{
  type_name, is_line, add_section, gather, is_image_line, image_lines, rest_lines,
}

-- Where the line `t` comes from.
pub data Source (pick : Lines → List String) (t : String)
    : List (String × Step Lines) → Type 0 where
  here :
      (name : String) (s : Lines) (sections : List (String × Step Lines))
      → contains (pick s) t ≡ true
      → Source pick t ((name, ok s) ∷ sections)
  later :
      (first : String × Step Lines) (sections : List (String × Step Lines))
      → Source pick t sections
      → Source pick t (first ∷ sections)

contains-keep :
    (test : String → Bool) (xs : List String) (t : String)
    → test t ≡ true
    → contains xs t ≡ true
    → contains (keep test xs) t ≡ true
contains-keep test [] t p h = h
contains-keep test (x ∷ xs) t p h = elim (Bool-cases (x == t)) [
  | inl same ↦
      let names : x ≡ t = ground (arith, eq_iff x t) in rw (names, p) (ground (arith, eq_iff t t))
  | inr other ↦ ground (arith, contains-keep test xs t p)
]

-- The section `name` has failed with `e`.
pub data Failed (name : String) (e : Failure) : List (String × Step Lines) → Type 0 where
  failed : (sections : List (String × Step Lines)) → Failed name e ((name, err e) ∷ sections)
  further :
      (first : String × Step Lines) (sections : List (String × Step Lines))
      → Failed name e sections
      → Failed name e (first ∷ sections)

-- The lines so far stay.
pub record Grown (a b : Lines) : Type 0 where
  pub urgent : (t : String) → contains a.urgent t ≡ true → contains b.urgent t ≡ true
  pub other : (t : String) → contains a.other t ≡ true → contains b.other t ≡ true
  pub couldnt : (t : String) → contains a.couldnt t ≡ true → contains b.couldnt t ≡ true

add_section-Grown : (name : String) (s : Step Lines) (l : Lines) → Grown l (add_section name s l)
unfolding add_section
add_section-Grown name (err e) l = record {
  urgent = λ t h. h;
  other = λ t h. h;
  couldnt = λ t h. in_front l.couldnt _ t h;
}
add_section-Grown name (ok s) l = record {
  urgent = λ t h. in_front l.urgent _ t h;
  other = λ t h. in_front l.other _ t h;
  couldnt = λ t h. in_front l.couldnt _ t h;
}

gather-Grown : (sections : List (String × Step Lines)) (l : Lines) → Grown l (gather sections l)
unfolding gather
gather-Grown [] l = record { urgent = λ t h. h; other = λ t h. h; couldnt = λ t h. h }
gather-Grown ((name, s) ∷ sections) l =
    let one = add_section-Grown name s l in
    let more = gather-Grown sections (add_section name s l) in
    record {
      urgent = λ t h. more.urgent t (one.urgent t h);
      other = λ t h. more.other t (one.other t h);
      couldnt = λ t h. more.couldnt t (one.couldnt t h);
    }

gather-urgent :
    (t : String)
    → is_line t ≡ true
    → (sections : List (String × Step Lines)) (l : Lines) → Source (λ s. s.urgent) t sections
    → contains (gather sections l).urgent t ≡ true
unfolding gather add_section
gather-urgent t p _ l (here name s sections h) =
    (gather-Grown sections (add_section name (ok s) l)).urgent t
      (behind l.urgent (keep is_line s.urgent) t (contains-keep is_line s.urgent t p h))
gather-urgent t p _ l (later (name, s) sections from) =
    gather-urgent t p sections (add_section name s l) from

gather-other :
    (t : String)
    → is_line t ≡ true
    → (sections : List (String × Step Lines)) (l : Lines) → Source (λ s. s.other) t sections
    → contains (gather sections l).other t ≡ true
unfolding gather add_section
gather-other t p _ l (here name s sections h) =
    (gather-Grown sections (add_section name (ok s) l)).other t
      (behind l.other (keep is_line s.other) t (contains-keep is_line s.other t p h))
gather-other t p _ l (later (name, s) sections from) =
    gather-other t p sections (add_section name s l) from

gather-couldnt :
    (t : String) (sections : List (String × Step Lines)) (l : Lines)
    → Source (λ s. s.couldnt) t sections
    → contains (gather sections l).couldnt t ≡ true
unfolding gather add_section
gather-couldnt t _ l (here name s sections h) =
    (gather-Grown sections (add_section name (ok s) l)).couldnt t (behind l.couldnt s.couldnt t h)
gather-couldnt t _ l (later (name, s) sections from) =
    gather-couldnt t sections (add_section name s l) from

abbrev pub failure_line : String → Failure → String
failure_line name e = name <> (" (" <> (type_name e <> ")"))

gather-failed :
    (name : String) (e : Failure) (sections : List (String × Step Lines)) (l : Lines)
    → Failed name e sections
    → contains (gather sections l).couldnt (failure_line name e) ≡ true
unfolding gather add_section
gather-failed name e _ l (failed sections) =
    (gather-Grown sections (add_section name (err e) l)).couldnt (failure_line name e) (
      behind l.couldnt (failure_line name e ∷ []) (failure_line name e)
        (ground (arith, eq_iff (failure_line name e) (failure_line name e))))
gather-failed name e _ l (further (first, s) sections from) =
    gather-failed name e sections (add_section first s l) from

keep_passes :
    (test : String → Bool) (xs : List String) (t : String)
    → contains (keep test xs) t ≡ true
    → test t ≡ true
keep_passes test [] t h = cc
keep_passes test (x ∷ xs) t h = elim (Bool-cases (test x)) [
  | inl p ↦ elim (Bool-cases (x == t)) [
    | inl same ↦ subst (λ z. test z ≡ true) ((eq_iff x t).0 same) p
    | inr other ↦ keep_passes test xs t (rw (p, other) at h)
  ]
  | inr p ↦ keep_passes test xs t (rw p at h)
]

-- What is gathered of the sections: the lines that are not empty of each that ended well, each in its place,
-- and each failure.
pub record Tells (sections : List (String × Step Lines)) (l : Lines) : Type 0 where
  pub urgent :
      (t : String)
      → is_line t ≡ true
      → Source (λ s. s.urgent) t sections
      → contains l.urgent t ≡ true
  pub rest :
      (t : String)
      → is_line t ≡ true
      → has_text " -> " t ≡ false
      → Source (λ s. s.other) t sections
      → contains (rest_lines l) t ≡ true
  pub images :
      (t : String)
      → is_line t ≡ true
      → has_text " -> " t ≡ true
      → Source (λ s. s.other) t sections
      → contains (image_lines l) t ≡ true
  pub couldnt : (t : String) → Source (λ s. s.couldnt) t sections → contains l.couldnt t ≡ true
  pub failures :
      (name : String) (e : Failure)
      → Failed name e sections
      → contains l.couldnt (failure_line name e) ≡ true
  pub rest_alone : (t : String) → contains (rest_lines l) t ≡ true → has_text " -> " t ≡ false
  pub images_alone : (t : String) → contains (image_lines l) t ≡ true → has_text " -> " t ≡ true

in_rest :
    (l : Lines) (t : String)
    → has_text " -> " t ≡ false
    → contains l.other t ≡ true
    → contains (rest_lines l) t ≡ true
unfolding rest_lines
in_rest l t i h = contains-keep (λ x. not (is_image_line x)) l.other t (rw i refl) h

in_images :
    (l : Lines) (t : String)
    → has_text " -> " t ≡ true
    → contains l.other t ≡ true
    → contains (image_lines l) t ≡ true
unfolding image_lines
in_images l t i h = contains-keep is_image_line l.other t i h

of_not : (b : Bool) → not b ≡ true → b ≡ false
of_not true h = cc
of_not false h = refl

of_rest : (l : Lines) (t : String) → contains (rest_lines l) t ≡ true → has_text " -> " t ≡ false
unfolding rest_lines
of_rest l t h = of_not (has_text " -> " t) (keep_passes (λ x. not (is_image_line x)) l.other t h)

of_images : (l : Lines) (t : String) → contains (image_lines l) t ≡ true → has_text " -> " t ≡ true
unfolding image_lines
of_images l t h = keep_passes is_image_line l.other t h

-- Whichever sections fail, `gather` keeps every line that is not empty of a section that ended well: an
-- urgent one among the urgent lines, another one with an arrow (` -> `) among the lines of images, which all
-- have one, and one without among the rest, none of which has one. What a section could not check and each
-- section's failure are kept among what couldn't be checked.
pub gather-Tells :
    (sections : List (String × Step Lines)) → Tells sections (gather sections no_lines)
gather-Tells sections = record {
  urgent = λ t p from. gather-urgent t p sections no_lines from;
  rest = λ t p i from.
      in_rest (gather sections no_lines) t i (gather-other t p sections no_lines from);
  images = λ t p i from.
      in_images (gather sections no_lines) t i (gather-other t p sections no_lines from);
  couldnt = λ t from. gather-couldnt t sections no_lines from;
  failures = λ name e from. gather-failed name e sections no_lines from;
  rest_alone = λ t h. of_rest (gather sections no_lines) t h;
  images_alone = λ t h. of_images (gather sections no_lines) t h;
}
