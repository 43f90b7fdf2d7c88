-- ===== src/HomeMcp/Updates/Tags.antt =====
-- compose/aws/home-mcp/updates.py: the tags of container images, in ASCII and on one line.
pub mod Newest
mod Tests
use Prim.Native.Char.{char}
use nyc_pa_aws_gitops.Prelude.{
  ℕ, zero, suc, ◌+◌, ◌-◌, ◌*◌, Char, code, String, Bool, true, false, not, ◌&&◌, ◌||◌, Option, none,
  some, List, [], ◌∷◌, ◌==◌, leb, ltb, eqb, if◌then◌else◌, length, is_digit, is_upper, Option-cases,
}

-- A tag's prefix, numbers and suffix.
pub record Tag : Type 0 where
  pub prefix : String
  pub nums : List ℕ
  pub suffix : String

-- `\d+(?:\.\d+)*` with what follows it, from within a number: `n` is the number so far, and `dotted`
-- says that a full stop came behind it.
unfoldable pub scan_nums : Bool → ℕ → String → List ℕ × String
scan_nums false n String.[] = (n ∷ [], "")
scan_nums true n String.[] = (n ∷ [], ".")
scan_nums false n (String.◌∷◌ c s) =
    let longer = scan_nums false (n * 10 + (code c - b'0')) s in
    let stopped = scan_nums true n s in
    if is_digit (code c)
    then longer
    else if eqb (code c) b'.'
    then stopped
    else (n ∷ [], String.◌∷◌ c s)
scan_nums true n (String.◌∷◌ c s) =
    let rest = scan_nums false (code c - b'0') s in
    if is_digit (code c)
    then (n ∷ rest.0, rest.1)
    else (n ∷ [], String.◌∷◌ (char 46 tt) (String.◌∷◌ c s))

-- The rest of the pattern behind `v?`.
unfoldable pub parse_nums : String → String → Option Tag
unfolding scan_nums
parse_nums prefix String.[] = none
parse_nums prefix (String.◌∷◌ c s) =
    let r = scan_nums false (code c - b'0') s in
    if is_digit (code c) then some (record { prefix = prefix; nums = r.0; suffix = r.1 }) else none

-- `parse_tag`
unfoldable pub parse_tag : String → Option Tag
unfolding parse_nums
parse_tag String.[] = none
parse_tag (String.◌∷◌ c s) =
    if eqb (code c) b'v' then parse_nums "v" s else parse_nums "" (String.◌∷◌ c s)

-- `c.lower()` for a code point of ASCII
abbrev pub lower_code : ℕ → ℕ
lower_code c = if is_upper c then c + 32 else c

-- The word `w`, which is in lower case, begins the text.
unfoldable pub starts_lower : String → String → Bool
starts_lower String.[] s = true
starts_lower (String.◌∷◌ d w) String.[] = false
starts_lower (String.◌∷◌ d w) (String.◌∷◌ c s) =
    let rest = starts_lower w s in eqb (lower_code (code c)) (code d) && rest

abbrev any_starts : List String → String → Bool
any_starts [] s = false
any_starts (w ∷ ws) s = starts_lower w s || any_starts ws s

abbrev pub prerelease_words : List String
prerelease_words =
    "rc" ∷ "beta" ∷ "alpha" ∷ "dev" ∷ "pre" ∷ "preview" ∷ "nightly" ∷ "test" ∷ "snapshot" ∷ "edge"
    ∷ []

-- `PRERELEASE.search`
unfoldable pub is_prerelease : String → Bool
unfolding starts_lower
is_prerelease String.[] = false
is_prerelease (String.◌∷◌ c s) =
    let rest = is_prerelease s in any_starts prerelease_words (String.◌∷◌ c s) || rest

-- `a < b` for tuples of numbers
unfoldable pub lt_nums : List ℕ → List ℕ → Bool
lt_nums [] [] = false
lt_nums [] (b ∷ bs) = true
lt_nums (a ∷ as') [] = false
lt_nums (a ∷ as') (b ∷ bs) = let rest = lt_nums as' bs in ltb a b || (eqb a b && rest)

-- `p` has the shape of `cur`, and is no pre-release.
unfoldable pub has_shape : Tag → Tag → Bool
unfolding is_prerelease
has_shape cur p =
    p.prefix == cur.prefix
    && (p.suffix == cur.suffix
        && (eqb (length p.nums) (length cur.nums) && not (is_prerelease p.suffix)))

abbrev pub fits : Tag → Option Tag → Bool
fits cur none = false
fits cur (some p) = has_shape cur p

abbrev pub nums_of : Option Tag → List ℕ
nums_of none = []
nums_of (some p) = p.nums

-- The loop over the tags, with the best one so far and its numbers.
unfoldable pub newest_from : Tag → Option String → List ℕ → List String → Option String
unfolding has_shape lt_nums parse_tag
newest_from cur best nums [] = best
newest_from cur best nums (t ∷ tags) =
    let better = newest_from cur (some t) (nums_of (parse_tag t)) tags in
    let same = newest_from cur best nums tags in
    if fits cur (parse_tag t) && lt_nums nums (nums_of (parse_tag t)) then better else same

abbrev pub newest_of : Option Tag → List String → Option String
newest_of none tags = none
newest_of (some cur) tags =
    if is_prerelease cur.suffix then none else newest_from cur none cur.nums tags

-- `newest_same_shape`
unfoldable pub newest_same_shape : String → List String → Option String
unfolding newest_from is_prerelease
newest_same_shape current tags = newest_of (parse_tag current) tags
