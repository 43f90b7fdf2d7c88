-- ===== src/HomeMcp/Updates/Images.antt =====
-- compose/aws/home-mcp/updates.py: the images that the Compose files name. A YAML document is given as
-- the JSON value it stands for, with texts as keys.
use nyc_pa_aws_gitops.Prelude.{
  ℕ, String, ◌<>◌, ◌||◌, Option, none, some, List, [], ◌∷◌, ◌++◌, ◌==◌, if◌then◌else◌, contains,
  sorted, has_char, split_first, rsplit, map,
}
use nyc_pa_aws_gitops.Prelude.Results.{Result, ok, err, ◌>>=◌, traverse}
use nyc_pa_aws_gitops.Prelude.Dict.{Dict, get, keys}
use nyc_pa_aws_gitops.Prelude.Paths.{dirname, join_paths, normpath}
use nyc_pa_aws_gitops.Prelude.Json.{Json, null, str, arr, obj, to_list, to_dict, truthy}

-- The exceptions that the module tells apart, the others by the name of their class.
pub data Failure : Type 0 where
  http_error : String → Failure
  yaml_error : Failure
  value_error : String → Failure
  key_error : Failure
  crash : String → Failure

abbrev pub Step {ℓ} : Type ℓ → Type ℓ
Step A = Result Failure A

-- A reference's registry, repository and tag.
pub record Image : Type 0 where
  pub registry : String
  pub repo : String
  pub tag : String

abbrev before_first : ℕ → String → String
before_first sep s = elim (split_first sep s) [ none ↦ s | some (before, behind) ↦ before ]

abbrev untagged : Option (String × String) → String → String × String
untagged none ref = (ref, "latest")
untagged (some (name, tag)) ref =
    if name == "" || has_char b'/' tag then (ref, "latest") else (name, tag)

abbrev in_registry : String → String → Option (String × String) → Step Image
in_registry registry tag none = err (crash "IndexError")
in_registry registry tag (some (first, repo)) =
    ok (record { registry = registry; repo = repo; tag = tag })

abbrev locate : String → String → Step Image
locate name tag =
    let first = before_first b'/' name in
    if has_char b'.' first || has_char b':' first
    then in_registry first tag (split_first b'/' name)
    else ok (record {
      registry = "docker.io";
      repo = (if has_char b'/' name then name else "library/" <> name);
      tag = tag;
    })

-- `split_image`
unfoldable pub split_image : String → Step Image
unfolding split_first rsplit has_char
split_image reference =
    let ref = before_first b'@' reference in
    let (name, tag) = untagged (rsplit b':' ref) ref in locate name tag

-- `(v or {}).get(key)`
unfoldable pub field_of : String → Json → Step Json
unfolding get truthy
field_of key (obj fs) = ok (elim (get key (to_dict fs)) [ none ↦ null | some v ↦ v ])
field_of key v = if truthy v then err (crash "AttributeError") else ok null

unfoldable letters : String → List Json
letters String.[] = []
letters (String.◌∷◌ c s) = str (String.◌∷◌ c String.[]) ∷ letters s

unfoldable values : Dict Json → List Json
values [] = []
values ((k, v) ∷ d) = v ∷ values d

-- What `for x in v or []` goes through.
unfoldable pub items_of : Json → Step (List Json)
unfolding truthy letters keys
items_of (arr xs) = ok (to_list xs)
items_of (obj fs) = ok (map str (keys (to_dict fs)))
items_of (str t) = ok (letters t)
items_of v = if truthy v then err (crash "TypeError") else ok []

-- `[rel] if isinstance(rel, str) else rel or []`
abbrev paths_of : Json → Step (List Json)
paths_of (str t) = ok (str t ∷ [])
paths_of v = items_of v

-- `rel` of an entry
abbrev rel_of : Json → Step Json
rel_of (str t) = ok (str t)
rel_of v = field_of "path" v

abbrev resolved : String → Json → Step String
resolved base (str r) = ok (normpath (join_paths base r))
resolved base v = err (crash "TypeError")

unfoldable concat : List (List String) → List String
concat [] = []
concat (x ∷ xs) = x ++ concat xs

unfoldable included : String → Json → Step (List String)
unfolding field_of items_of join_paths normpath traverse
included base item = do rel ← rel_of item; rs ← paths_of rel; traverse (resolved base) rs

-- `includes_in_compose` of the document
unfoldable pub includes_in_compose : Json → String → Step (List String)
unfolding field_of items_of dirname included traverse concat
includes_in_compose doc path = do
  list ← field_of "include" doc
  items ← items_of list
  found ← traverse (included (dirname path)) items
  ok (concat found)

-- The image of a service, if it is a dict with one. An image that is no text ends the section here, in
-- the source a few steps on, where it is split.
abbrev image_of : Json → Step (Option String)
image_of (obj fs) = elim (get "image" (to_dict fs)) [
  | some (str t) ↦ ok (if t == "" then none else some t)
  | some v ↦ if truthy v then err (crash "AttributeError") else ok none
  | none ↦ ok none
]
image_of v = ok none

-- Adds a text to a set of texts.
abbrev pub add_new : String → List String → List String
add_new x xs = if contains xs x then xs else x ∷ xs

unfoldable pub union_of : List String → List String → List String
union_of [] ys = ys
union_of (x ∷ xs) ys = add_new x (union_of xs ys)

unfoldable somes : List (Option String) → List String
somes [] = []
somes (none ∷ xs) = somes xs
somes (some x ∷ xs) = x ∷ somes xs

-- The services of the document, which `.values()` wants in a dict.
abbrev services_of : Json → Step (List Json)
services_of (obj fs) = ok (values (to_dict fs))
services_of v = if truthy v then err (crash "AttributeError") else ok []

-- `images_in_compose` of the document
unfoldable pub images_in_compose : Json → Step (List String)
unfolding field_of get truthy values traverse somes union_of sorted
images_in_compose doc = do
  table ← field_of "services" doc
  services ← services_of table
  found ← traverse image_of services
  ok (sorted (union_of (somes found) []))
