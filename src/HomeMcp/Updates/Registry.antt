-- ===== src/HomeMcp/Updates/Registry.antt =====
-- compose/aws/home-mcp/updates.py: the lookups at the registries, endoflife.date and MikroTik, with
-- their cache. An HTTP client is a parameter. The keys of the three kinds of lookup have prefixes of
-- their own, so each kind has a dict of its own here.
pub mod Again
use nyc_pa_aws_gitops.Prelude.{
  ℕ, zero, suc, ◌-◌, ◌*◌, Char, code, String, ◌<>◌, Bool, true, false, Option, none, some, List, [],
  ◌∷◌, ◌++◌, ◌&&◌, ◌==◌, ltb, eqb, if◌then◌else◌, split_first, strip_prefix, starts, lstrip, split,
  is_nonempty,
}
use nyc_pa_aws_gitops.Prelude.Results.{Result, ok, err, ◌>>=◌, traverse}
use nyc_pa_aws_gitops.Prelude.Dict.{Dict, get, set}
use nyc_pa_aws_gitops.Prelude.Json.{Json, null, bool, num, str, arr, obj, to_list, to_dict, truthy}
use nyc_pa_aws_gitops.Prelude.Python.{Python, text_of}
use nyc_pa_aws_gitops.HomeMcp.Updates.Images.{
  Failure, value_error, key_error, crash, Step, field_of, items_of,
}

abbrev pub cache_seconds : ℕ
cache_seconds = 6 * 3600

-- A kind of value with the time at which each was stored, on a clock that never goes back.
abbrev pub Cache {ℓ} : Type ℓ → Type ℓ
Cache V = Dict (ℕ × V)

module _ {ℓ} {V : Type ℓ} where
  abbrev fresh_value : ℕ → Option (ℕ × V) → Option V
  fresh_value now none = none
  fresh_value now (some (at, v)) = if ltb (now - at) cache_seconds then some v else none

  -- `_cached`
  unfoldable pub cached : ℕ → String → Cache V → Option V
  unfolding get
  cached now key cache = fresh_value now (get key cache)

  -- `_store`
  unfoldable pub store : ℕ → String → V → Cache V → Cache V
  unfolding set
  store now key v cache = set key (now, v) cache

  abbrev stored : ℕ → String → Cache V → Step V → Step V × Cache V
  stored done key cache (ok v) = (ok v, store done key v cache)
  stored done key cache (err e) = (err e, cache)

  abbrev looked_up : ℕ → String → Cache V → Step V → Option V → Step V × Cache V
  looked_up done key cache answer (some v) = (ok v, cache)
  looked_up done key cache answer none = stored done key cache answer

  -- A lookup at the time `now`, with the `answer` that comes at the time `done` if it is asked for.
  unfoldable pub through_cache : ℕ → ℕ → String → Step V → Cache V → Step V × Cache V
  unfolding cached store
  through_cache now done key answer cache = looked_up done key cache answer (cached now key cache)

-- A request with its parameters and the text behind `Bearer`, if there is one.
pub record Request : Type 0 where
  pub url : String
  pub params : Dict String
  pub bearer : Option String

-- An answer that `raise_for_status` lets pass: its JSON value, its text and its header `link`.
pub record Reply : Type 0 where
  pub json : Step Json
  pub text : String
  pub link : String

pub record Client : Type 0 where
  pub python : Python
  pub ask : Request → Step Reply

-- `v[key]`
abbrev value_at : Option Json → Step Json
value_at none = err key_error
value_at (some v) = ok v

unfoldable pub item_at : String → Json → Step Json
unfolding get
item_at key (obj fs) = value_at (get key (to_dict fs))
item_at key v = err (crash "TypeError")

-- `v.get(key)`
unfoldable pub get_of : String → Json → Step Json
unfolding get
get_of key (obj fs) = ok (elim (get key (to_dict fs)) [ none ↦ null | some v ↦ v ])
get_of key v = err (crash "AttributeError")

-- A tag. One that is no text would end the search for a newer tag with an exception.
abbrev text_item : Json → Step String
text_item (str t) = ok t
text_item v = err (crash "TypeError")

abbrev tag_name : Json → Step String
tag_name t = item_at "name" t >>= text_item

-- `d.get(key, [])`, gone through
abbrev each : Option Json → Step (List Json)
each none = ok []
each (some (arr xs)) = ok (to_list xs)
each (some v) = err (crash "TypeError")

abbrev results_of : Json → Step (List Json)
results_of (obj fs) = each (get "results" (to_dict fs))
results_of v = err (crash "AttributeError")

-- `d.get("next")`, if it is there
abbrev next_page : Json → Step (Option String)
next_page (str t) = ok (if t == "" then none else some t)
next_page v = if truthy v then err (crash "TypeError") else ok none

-- The loop of `_dockerhub_tags`, for at most `turns` pages.
unfoldable pub hub_pages : Client → ℕ → Request → List String → Step (List String)
unfolding get item_at get_of truthy traverse
hub_pages c zero rq tags = ok tags
hub_pages c (suc turns) rq tags = do
  r ← c.ask rq
  d ← r.json
  found ← results_of d
  names ← traverse tag_name found
  next ← get_of "next" d
  further ← next_page next
  elim further [
    | none ↦ ok (tags ++ names)
    | some url ↦
        hub_pages c turns (record { url = url; params = []; bearer = none }) (tags ++ names)
  ]

abbrev hub_request : Option (String × String) → Step Request
hub_request none = err (value_error "ValueError")
hub_request (some (ns, name)) = ok (record {
  url = "https://hub.docker.com/v2/namespaces/" <> (ns <> ("/repositories/" <> (name <> "/tags")));
  params = ("page_size", "100") ∷ ("ordering", "last_updated") ∷ [];
  bearer = none;
})

-- `_dockerhub_tags`
unfoldable pub dockerhub_tags : Client → String → Step (List String)
unfolding hub_pages split_first
dockerhub_tags c repo = do rq ← hub_request (split_first b'/' repo); hub_pages c 3 rq []

abbrev link_target : Option (String × String) → Option String
link_target none = none
link_target (some (target, behind)) = elim (strip_prefix ";" behind) [
  | none ↦ none
  | some s ↦ if is_nonempty target && starts "rel=\"next\"" (lstrip s) then some target else none
]

-- The search for `<target>; rel="next"`.
unfoldable pub next_link : String → Option String
unfolding split_first strip_prefix lstrip is_nonempty
next_link String.[] = none
next_link (String.◌∷◌ c s) =
    let rest = next_link s in
    let here = link_target (split_first b'>' s) in
    if eqb (code c) b'<' then elim here [ some t ↦ some t | none ↦ rest ] else rest

abbrev full_url : String → String
full_url target = if starts "http" target then target else "https://ghcr.io" <> target

-- The loop of `_ghcr_tags`, for at most `turns` pages.
unfoldable pub ghcr_pages : Client → String → ℕ → String → List String → Step (List String)
unfolding get_of items_of next_link strip_prefix traverse
ghcr_pages c token zero url tags = ok tags
ghcr_pages c token (suc turns) url tags = do
  r ← c.ask (record { url = url; params = []; bearer = some token })
  d ← r.json
  list ← get_of "tags" d
  found ← items_of list
  names ← traverse text_item found
  elim (next_link r.link) [
    | none ↦ ok (tags ++ names)
    | some target ↦ ghcr_pages c token turns (full_url target) (tags ++ names)
  ]

-- `_ghcr_tags`
unfoldable pub ghcr_tags : Client → String → Step (List String)
unfolding ghcr_pages item_at text_of
ghcr_tags c repo = do
  r ← c.ask (record {
    url = "https://ghcr.io/token";
    params = ("scope", "repository:" <> (repo <> ":pull")) ∷ ("service", "ghcr.io") ∷ [];
    bearer = none;
  })
  d ← r.json
  token ← item_at "token" d
  ghcr_pages c (text_of c.python token) 10 ("https://ghcr.io/v2/" <> (repo <> "/tags/list?n=1000"))
      []

abbrev tags_at : Client → String → String → Step (List String)
tags_at c registry repo =
    if registry == "docker.io"
    then dockerhub_tags c repo
    else if registry == "ghcr.io"
    then ghcr_tags c repo
    else err (value_error "ValueError")

-- `_registry_tags`
unfoldable pub registry_tags :
    Client
    → ℕ
    → ℕ
    → String
    → String
    → Cache (List String)
    → Step (List String) × Cache (List String)
unfolding through_cache dockerhub_tags ghcr_tags
registry_tags c now done registry repo cache =
    through_cache now done ("tags:" <> (registry <> ("/" <> repo))) (tags_at c registry repo) cache

-- The releases of a product, of which each is a dict.
abbrev release_of : Json → Step (Dict Json)
release_of (obj fs) = ok (to_dict fs)
release_of v = err (crash "AttributeError")

abbrev result_of : Option Json → Step (List Json)
result_of none = ok []
result_of (some (obj fs)) = each (get "releases" (to_dict fs))
result_of (some v) = err (crash "AttributeError")

abbrev releases_of : Json → Step (List Json)
releases_of (obj fs) = result_of (get "result" (to_dict fs))
releases_of v = err (crash "AttributeError")

abbrev releases_at : Client → String → Step (List (Dict Json))
releases_at c product = do
  r ← c.ask (record {
    url = "https://endoflife.date/api/v1/products/" <> (product <> "/");
    params = [];
    bearer = none;
  })
  d ← r.json
  list ← releases_of d
  traverse release_of list

-- `_eol`
unfoldable pub eol :
    Client
    → ℕ
    → ℕ
    → String
    → Cache (List (Dict Json))
    → Step (List (Dict Json)) × Cache (List (Dict Json))
unfolding through_cache get traverse
eol c now done product cache =
    through_cache now done ("eol:" <> product) (releases_at c product) cache

abbrev first_word : List String → Step String
first_word [] = err (crash "IndexError")
first_word (w ∷ ws) = ok w

abbrev channel_of : String → String
channel_of major = if major == "7" then "NEWESTa7.stable" else "NEWEST6.stable"

abbrev latest_at : Client → String → Step String
latest_at c channel = do
  r ← c.ask (record {
    url = "https://upgrade.mikrotik.com/routeros/" <> channel;
    params = [];
    bearer = none;
  })
  first_word (split r.text)

-- `_mikrotik_latest`
unfoldable pub mikrotik_latest : Client → ℕ → ℕ → String → Cache String → Step String × Cache String
unfolding through_cache split
mikrotik_latest c now done major cache =
    through_cache now done ("mikrotik:" <> channel_of major) (latest_at c (channel_of major)) cache
