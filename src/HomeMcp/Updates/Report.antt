-- ===== src/HomeMcp/Updates/Report.antt =====
-- compose/aws/home-mcp/updates.py: `update_status`, which tells what the three sections have found.
pub mod Complete
use nyc_pa_aws_gitops.Prelude.{
  ℕ, String, ◌<>◌, Bool, true, false, not, ◌&&◌, ◌||◌, Option, none, some, List, [], ◌∷◌, ◌++◌,
  ◌==◌, if◌then◌else◌, length, keep, join, sorted, show, plural, has_text,
}
use nyc_pa_aws_gitops.Prelude.Results.{Result, ok, err}
use nyc_pa_aws_gitops.HomeMcp.Updates.Images.{
  Failure, http_error, yaml_error, value_error, key_error, crash, Step, union_of,
}
use nyc_pa_aws_gitops.HomeMcp.Updates.Checks.{Lines, no_lines}

-- `type(res).__name__`. A YAML error never leaves its section.
abbrev pub type_name : Failure → String
type_name (http_error name) = name
type_name yaml_error = "YAMLError"
type_name (value_error name) = name
type_name key_error = "KeyError"
type_name (crash name) = name

abbrev pub is_line : String → Bool
is_line x = not (x == "")

-- The lines so far with those of one section, or with its failure.
unfoldable pub add_section : String → Step Lines → Lines → Lines
add_section name (err e) l = record {
  urgent = l.urgent;
  other = l.other;
  couldnt = l.couldnt ++ ((name <> (" (" <> (type_name e <> ")"))) ∷ []);
}
add_section name (ok s) l = record {
  urgent = l.urgent ++ keep is_line s.urgent;
  other = l.other ++ keep is_line s.other;
  couldnt = l.couldnt ++ s.couldnt;
}

-- The loop over the sections.
unfoldable pub gather : List (String × Step Lines) → Lines → Lines
unfolding add_section
gather [] l = l
gather ((name, s) ∷ sections) l = gather sections (add_section name s l)

abbrev pub is_image_line : String → Bool
is_image_line x = has_text " -> " x

-- `image_lines` and `rest`
unfoldable pub image_lines : Lines → List String
unfolding has_text
image_lines l = keep is_image_line l.other

unfoldable pub rest_lines : Lines → List String
unfolding has_text
rest_lines l = keep (λ x. not (is_image_line x)) l.other

abbrev pub is_none : List String → Bool
is_none [] = true
is_none (x ∷ xs) = false

-- `part` if there is something to tell of in `xs`
abbrev part_of : List String → String → List String
part_of [] part = []
part_of (x ∷ xs) part = part ∷ []

unfoldable pub head : Lines → String
unfolding image_lines rest_lines join show plural
head l =
    let soon = length l.urgent in
    let others = length (rest_lines l) in
    let behind = length (image_lines l) in
    if is_none l.urgent && is_none l.other
    then "Everything I can check is up to date."
    else "Updates: "
      <> (join ", " (
            part_of l.urgent (show soon <> (" thing" <> (plural soon <> " worth doing soon")))
            ++ (part_of (rest_lines l) (show others <> (" other update" <> plural others))
                ++ part_of (image_lines l)
                    (show behind <> (" container image" <> (plural behind <> " behind")))))
          <> ".")

abbrev listing : String → List String → List String
listing front xs = part_of xs (front <> (join "; " xs <> "."))

abbrev detail_parts : Lines → List String
detail_parts l =
    listing "Also: " (rest_lines l)
    ++ listing
        "Images (Dependabot opens PRs for these; [floating tag] means patch releases already arrive on each hub redeploy, the listed jump is a new major/minor line): "
        (image_lines l)

abbrev hint : Lines → List String
hint l =
    if is_none (rest_lines l) && is_none (image_lines l)
    then []
    else "Ask for the detail to hear the rest." ∷ []

-- The lines of the answer.
unfoldable pub answer_lines : Bool → Lines → List String
unfolding head image_lines rest_lines join sorted union_of
answer_lines detail l =
    head l
    ∷ (listing "Soon: " l.urgent
        ++ ((if detail then detail_parts l else hint l)
            ++ listing "Couldn't check: " (sorted (union_of l.couldnt []))))

-- `update_status` of the results of `_hosts`, `_network` and `_images`.
unfoldable pub update_status : Bool → Step Lines → Step Lines → Step Lines → String
unfolding answer_lines gather join
update_status detail hosts network images = join "\n" (
    answer_lines detail (
      gather
        (("OS packages", hosts)
          ∷ ("network device firmware", network)
          ∷ ("container images", images)
          ∷ [])
        no_lines))
