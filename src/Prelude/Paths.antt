-- ===== src/Prelude/Paths.antt =====
-- Python's `posixpath` on native texts, and the splits that it and the scripts use.
use nyc_pa_aws_gitops.Prelude.{
  ℕ, String, ◌<>◌, ◌≡◌, refl, Bool, false, not, ◌&&◌, ◌||◌, Option, none, some, List, [], ◌∷◌, ◌==◌,
  code, eqb, if◌then◌else◌, starts, join, rsplit, all_chars, strip_prefix,
}

abbrev to_first : String → List String → List String
to_first c [] = c ∷ []
to_first c (x ∷ xs) = (c <> x) ∷ xs

-- `s.split(sep)` for a separator of one character
unfoldable pub split_on : ℕ → String → List String
split_on sep String.[] = "" ∷ []
split_on sep (String.◌∷◌ c s) =
    let rest = split_on sep s in
    if eqb (code c) sep then "" ∷ rest else to_first (String.◌∷◌ c String.[]) rest

-- `s.rstrip("/")`
unfoldable pub strip_slashes : String → String
unfolding all_chars
strip_slashes String.[] = String.[]
strip_slashes (String.◌∷◌ c s) =
    let rest = String.◌∷◌ c (strip_slashes s) in
    if all_chars (λ d. eqb d b'/') (String.◌∷◌ c s) then String.[] else rest

-- The path up to the last slash and with it.
abbrev head_of : Option (String × String) → String
head_of none = ""
head_of (some (before, behind)) = before <> "/"

abbrev without_slashes : String → String
without_slashes head = if all_chars (λ d. eqb d b'/') head then head else strip_slashes head

-- `posixpath.dirname(p)`
unfoldable pub dirname : String → String
unfolding all_chars rsplit strip_slashes
dirname p = without_slashes (head_of (rsplit b'/' p))

unfoldable ends_slash : String → Bool
ends_slash String.[] = false
ends_slash (String.◌∷◌ c String.[]) = eqb (code c) b'/'
ends_slash (String.◌∷◌ c (String.◌∷◌ d s)) = ends_slash (String.◌∷◌ d s)

-- `posixpath.join(a, b)`
unfoldable pub join_paths : String → String → String
unfolding ends_slash strip_prefix
join_paths a b =
    if starts "/" b then b else if a == "" || ends_slash a then a <> b else a <> ("/" <> b)

-- The loop over the parts, with the parts so far, the last one first.
unfoldable pub squeeze : Bool → List String → List String → List String
squeeze rooted kept [] = kept
squeeze rooted [] (p ∷ ps) =
    let skip = squeeze rooted [] ps in
    let take = squeeze rooted (p ∷ []) ps in
    if p == "" || p == "." then skip else if not (p == "..") || not rooted then take else skip
squeeze rooted (k ∷ kept) (p ∷ ps) =
    let skip = squeeze rooted (k ∷ kept) ps in
    let take = squeeze rooted (p ∷ k ∷ kept) ps in
    let drop = squeeze rooted kept ps in
    if p == "" || p == "." then skip else if not (p == "..") || k == ".." then take else drop

unfoldable reverse_onto : List String → List String → List String
reverse_onto [] acc = acc
reverse_onto (x ∷ xs) acc = reverse_onto xs (x ∷ acc)

-- The slashes that stay in front: two stay two, any other count is one.
abbrev front_of : String → String
front_of p =
    if starts "//" p && not (starts "///" p) then "//" else if starts "/" p then "/" else ""

abbrev or_dot : String → String
or_dot p = if p == "" then "." else p

-- `posixpath.normpath(p)`
unfoldable pub normpath : String → String
unfolding squeeze reverse_onto split_on join strip_prefix
normpath p =
    or_dot (front_of p <> join "/" (reverse_onto (squeeze (starts "/" p) [] (split_on b'/' p)) []))

normpath_example : normpath "compose/aws/./../aws/airflow//x.yml" ≡ "compose/aws/airflow/x.yml"
unfolding normpath
normpath_example = refl

dirname_example : dirname "compose/aws/docker-compose.yml" ≡ "compose/aws"
unfolding dirname
dirname_example = refl

parents_example : normpath (join_paths "compose/aws" "../../../x") ≡ "../x"
unfolding normpath join_paths
parents_example = refl
