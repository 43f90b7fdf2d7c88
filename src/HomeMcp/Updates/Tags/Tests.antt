-- ===== src/HomeMcp/Updates/Tags/Tests.antt =====
-- Runs on sample tags.
use nyc_pa_aws_gitops.Prelude.{String, ◌≡◌, refl, none, some, List, [], ◌∷◌}
use nyc_pa_aws_gitops.HomeMcp.Updates.Tags.{Tag, parse_tag, is_prerelease, newest_same_shape}
use nyc_pa_aws_gitops.HomeMcp.Updates.Tags.Newest.{Ends, newest_same_shape-Ends}

abbrev alpine_7 : Tag
alpine_7 = record { prefix = ""; nums = 7 ∷ []; suffix = "-alpine" }

abbrev redis_tags : List String
redis_tags = "8-alpine" ∷ "latest" ∷ "8.2-alpine" ∷ "9-rc1-alpine" ∷ "7-alpine" ∷ []

version_read :
    parse_tag "v1.8.2" ≡ some (record { prefix = "v"; nums = 1 ∷ 8 ∷ 2 ∷ []; suffix = "" })
unfolding parse_tag
version_read = refl

suffix_read : parse_tag "2.7.x" ≡ some (record { prefix = ""; nums = 2 ∷ 7 ∷ []; suffix = ".x" })
unfolding parse_tag
suffix_read = refl

newest_alpine : newest_same_shape "7-alpine" redis_tags ≡ some "8-alpine"
unfolding newest_same_shape
newest_alpine = refl

newest_same_shape-Ends_example :
    Ends alpine_7 none (7 ∷ []) redis_tags (newest_same_shape "7-alpine" redis_tags)
unfolding parse_tag is_prerelease
newest_same_shape-Ends_example = newest_same_shape-Ends "7-alpine" alpine_7 redis_tags refl refl
