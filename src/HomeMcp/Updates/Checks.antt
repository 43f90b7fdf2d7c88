-- ===== src/HomeMcp/Updates/Checks.antt =====
-- compose/aws/home-mcp/updates.py: the second part of `_images`, the check of each image, with
-- `_eol_line`. The checks run one after the other, in the order of the references.
mod EndOfLife
mod Kept
mod Tests
use nyc_pa_aws_gitops.Prelude.{
  ℕ, zero, suc, ◌+◌, String, ◌<>◌, Bool, true, false, not, ◌&&◌, ◌||◌, Option, none, some, List, [],
  ◌∷◌, ◌++◌, ◌==◌, ltb, leb, eqb, if◌then◌else◌, length, sorted, strip_prefix, show,
}
use nyc_pa_aws_gitops.Prelude.Results.{Result, ok, err, ◌>>=◌, traverse}
use nyc_pa_aws_gitops.Prelude.Dict.{Dict, get}
use nyc_pa_aws_gitops.Prelude.Json.{Json, null, bool, num, str, arr, obj, truthy}
use nyc_pa_aws_gitops.Prelude.Python.{Python, text_of}
use nyc_pa_aws_gitops.Prelude.Dates.{Date, ordinal, date_of}
use nyc_pa_aws_gitops.HomeMcp.Updates.Images.{
  Failure, http_error, yaml_error, value_error, key_error, crash, Step, Image, split_image,
}
use nyc_pa_aws_gitops.HomeMcp.Updates.Tags.{Tag, parse_tag, newest_same_shape, nums_of}
use nyc_pa_aws_gitops.HomeMcp.Updates.Walk.{Files, Found, compose_files, nothing, walk}

-- The lines of a section: `urgent`, `other` and `couldnt`.
pub record Lines : Type 0 where
  pub urgent : List String
  pub other : List String
  pub couldnt : List String

abbrev pub no_lines : Lines
no_lines = record { urgent = []; other = []; couldnt = [] }

unfoldable pub both_lines : Lines → Lines → Lines
both_lines a b = record {
  urgent = a.urgent ++ b.urgent;
  other = a.other ++ b.other;
  couldnt = a.couldnt ++ b.couldnt;
}

-- What a section looks up, as `_registry_tags` and `_eol` answer it, and today's date.
pub record Lookups : Type 0 where
  pub python : Python
  pub tags : String → String → Step (List String)
  pub eol : String → Step (List (Dict Json))
  pub today : Date

abbrev pub value_of : Option Json → Json
value_of none = null
value_of (some v) = v

-- The line for a release line that ends on `text`, which is the day `d`.
abbrev pub rated : Date → String → Date → Option (String × Bool)
rated today text d =
    if leb (ordinal d) (ordinal today + 180)
    then some ("reaches end of life on " <> text, leb (ordinal d) (ordinal today + 60))
    else none

abbrev dated : Date → String → Option Date → Step (Option (String × Bool))
dated today text none = err (value_error "ValueError")
dated today text (some d) = ok (rated today text d)

abbrev ends_on : Date → Json → Step (Option (String × Bool))
ends_on today (str t) = if t == "" then ok none else dated today t (date_of t)
ends_on today v = if truthy v then err (crash "TypeError") else ok none

abbrev pub on_date : Python → Json → String
on_date py v = if truthy v then " on " <> text_of py v else ""

-- What is said of the release line `rel`.
unfoldable pub release_line : Python → Date → Dict Json → Step (Option (String × Bool))
unfolding get truthy text_of date_of ordinal
release_line py today rel =
    let ends = value_of (get "eolFrom" rel) in
    if truthy (value_of (get "isEol" rel))
    then ok (some ("reached end of life" <> on_date py ends, true))
    else ends_on today ends

-- `str(rel.get("name")) == cycle`
abbrev pub is_cycle : Python → String → Dict Json → Bool
is_cycle py cycle rel = text_of py (value_of (get "name" rel)) == cycle

-- `_eol_line`
unfoldable pub eol_line : Python → List (Dict Json) → String → Date → Step (Option (String × Bool))
unfolding get text_of release_line
eol_line py [] cycle today = ok none
eol_line py (rel ∷ releases) cycle today =
    let rest = eol_line py releases cycle today in
    if is_cycle py cycle rel then release_line py today rel else rest

-- `IMAGE_NOTES`
abbrev pub image_note : String → List String
image_note short =
    if short == "grafana/promtail"
    then (short
        <> ": Promtail is end of life; this platform moved to Grafana Alloy, so it shouldn't be pinned anywhere")
      ∷ []
    else []

abbrev first_of : List ℕ → ℕ
first_of [] = 0
first_of (n ∷ ns) = n

abbrev major : String → ℕ
major tag = first_of (nums_of (parse_tag tag))

-- `floating`
abbrev is_floating : Option Tag → Bool
is_floating none = false
is_floating (some t) = ltb (length t.nums) 3 && ltb (first_of t.nums) 1000

abbrev kind_of : String → String → String
kind_of tag newer = if eqb (major newer) (major tag) then "update" else "major"

abbrev newer_line : String → String → Option String → List String
newer_line short tag none = []
newer_line short tag (some newer) =
    (short
      <> (" "
          <> (tag
              <> (" -> "
                  <> (newer
                      <> (" ("
                          <> (kind_of tag newer
                              <> (")"
                                  <> (if is_floating (parse_tag tag)
                                      then " [floating tag]"
                                      else "")))))))))
    ∷ []

abbrev with_other : List String → Lines
with_other other = record { urgent = []; other = other; couldnt = [] }

abbrev with_failure : List String → String → Lines
with_failure other line = record { urgent = []; other = other; couldnt = line ∷ [] }

abbrev with_hit : List String → String → Option (String × Bool) → Lines
with_hit other front none = with_other other
with_hit other front (some (phrase, true)) = record {
  urgent = (front <> phrase) ∷ [];
  other = other;
  couldnt = [];
}
with_hit other front (some (phrase, false)) = record {
  urgent = [];
  other = other ++ ((front <> phrase) ∷ []);
  couldnt = [];
}

-- The answer of the lookup at endoflife.date, and the lines that are there before it.
abbrev with_eol : Lookups → String → ℕ → List String → Step (List (Dict Json)) → Step Lines
with_eol w short cycle other (ok releases) = do
  hit ← eol_line w.python releases (show cycle) w.today
  ok (with_hit other (short <> (" " <> (show cycle <> " "))) hit)
with_eol w short cycle other (err (http_error name)) =
    ok (with_failure other ("end-of-life dates for " <> short))
with_eol w short cycle other (err yaml_error) = err yaml_error
with_eol w short cycle other (err (value_error name)) = err (value_error name)
with_eol w short cycle other (err key_error) = err key_error
with_eol w short cycle other (err (crash name)) = err (crash name)

abbrev with_cycle : Lookups → String → List String → Option Tag → Step Lines
with_cycle w short other none = ok (with_other other)
with_cycle w short other (some t) =
    if short == "postgres"
    then with_eol w short (first_of t.nums) other (w.eol "postgresql")
    else ok (with_other other)

-- The answer of the registry.
unfoldable pub with_tags : Lookups → String → String → Step (List String) → Step Lines
unfolding eol_line show newest_same_shape parse_tag
with_tags w short tag (ok tags) =
    with_cycle w short (image_note short ++ newer_line short tag (newest_same_shape tag tags))
      (parse_tag tag)
with_tags w short tag (err (http_error name)) =
    ok (with_failure (image_note short) ("newer tags for " <> short))
with_tags w short tag (err (value_error name)) =
    ok (with_failure (image_note short) ("newer tags for " <> short))
with_tags w short tag (err key_error) =
    ok (with_failure (image_note short) ("newer tags for " <> short))
with_tags w short tag (err yaml_error) = err yaml_error
with_tags w short tag (err (crash name)) = err (crash name)

abbrev short_of : Option String → String → String
short_of none repo = repo
short_of (some short) repo = short

-- `check`
unfoldable pub check : Lookups → String → Step Lines
unfolding split_image with_tags strip_prefix
check w ref = do
  i ← split_image ref
  with_tags w (short_of (strip_prefix "library/" i.repo) i.repo) i.tag (w.tags i.registry i.repo)

unfoldable pub all_lines : List Lines → Lines
unfolding both_lines
all_lines [] = no_lines
all_lines (l ∷ ls) = both_lines l (all_lines ls)

abbrev finished : List String → Lines → Lines
finished couldnt l = record {
  urgent = l.urgent;
  other = sorted l.other;
  couldnt = couldnt ++ l.couldnt;
}

-- The checks of the images that the walk has found, and the sorting of the lines.
unfoldable pub check_all : Lookups → Found → Step Lines
unfolding check all_lines traverse sorted
check_all w got = do
  lines ← traverse (check w) (sorted got.refs)
  ok (finished got.couldnt (all_lines lines))

-- `_images`, where the walk takes at most `fuel` turns.
unfoldable pub images : Files → Lookups → ℕ → Option (Step Lines)
unfolding walk check_all
images f w fuel = elim (walk f fuel compose_files nothing) [
  | none ↦ none
  | some r ↦ some (r >>= check_all w)
]
