-- ===== src/Prelude/Texts.antt =====
-- Python's `str` operations that the platform's scripts use, on native texts.
use Prim.Native.Nat.{ℕ, Ordering}
use Prim.Native.Char.{code}
use Prim.Native.String.{compare}
use Prim.Native.String.{String, ◌++◌ as ◌<>◌}
use mathlib.Core.Path.{◌≡◌, refl}
use mathlib.Core.Bool.{Bool, true, false, not, ◌&&◌, ◌||◌}
use mathlib.Core.Option
use mathlib.Core.Option.{Option, none, some}
use text.Mathlib.Text.{◌==◌}
use mathlib.Core.List.{List, [], ◌∷◌}
use native.Mathlib.Omega.{arith}
use text.Mathlib.TextLemmas.{cons-append, nil-append}
use nyc_pa_aws_gitops.Prelude.Tests.{leb, eqb, eqb_refl, if◌then◌else◌}

-- The code points of a text.
abbrev pub codes : String → List ℕ
codes String.[] = []
codes (String.◌∷◌ c s) = code c ∷ codes s

-- `all(test(c) for c in s)`
unfoldable pub all_chars : (ℕ → Bool) → String → Bool
all_chars test String.[] = true
all_chars test (String.◌∷◌ c s) = test (code c) && all_chars test s

abbrev pub is_lower : ℕ → Bool
is_lower c = leb b'a' c && leb c b'z'

abbrev pub is_upper : ℕ → Bool
is_upper c = leb b'A' c && leb c b'Z'

abbrev pub is_digit : ℕ → Bool
is_digit c = leb b'0' c && leb c b'9'

unfoldable pub is_nonempty : String → Bool
is_nonempty String.[] = false
is_nonempty (String.◌∷◌ c s) = true

-- What is left of `s` behind the prefix `p`.
unfoldable pub strip_prefix : String → String → Option String
strip_prefix String.[] s = some s
strip_prefix (String.◌∷◌ c p) String.[] = none
strip_prefix (String.◌∷◌ c p) (String.◌∷◌ d s) =
    let rest = strip_prefix p s in if eqb (code c) (code d) then rest else none

pub strip_prefix-append : (p s : String) → strip_prefix p (p <> s) ≡ some s
unfolding strip_prefix
strip_prefix-append String.[] s = rw nil-append
strip_prefix-append (String.◌∷◌ c p) s =
    rw (cons-append, eqb_refl (code c)) (strip_prefix-append p s)

-- `sep.join(parts)`
unfoldable pub join : String → List String → String
join sep [] = ""
join sep (x ∷ []) = x
join sep (x ∷ y ∷ rest) = x <> (sep <> join sep (y ∷ rest))

-- `s.rsplit(c, 1)`: the parts before and behind the last `c`, if there is one
unfoldable pub rsplit : ℕ → String → Option (String × String)
rsplit sep String.[] = none
rsplit sep (String.◌∷◌ c s) = elim (rsplit sep s) [
  | some (before, behind) ↦ some (String.◌∷◌ c before, behind)
  | none ↦ if eqb (code c) sep then some (String.[], s) else none
]

-- `s.split(c, 1)`, `s.partition(c)`: the parts before and behind the first `c`
unfoldable pub split_first : ℕ → String → Option (String × String)
split_first sep String.[] = none
split_first sep (String.◌∷◌ c s) =
    let rest = Option.map (λ (before, behind). (String.◌∷◌ c before, behind)) (split_first sep s) in
    if eqb (code c) sep then some (String.[], s) else rest

-- `s.removesuffix(suffix)`, for a suffix that is not empty
unfoldable pub remove_suffix : String → String → String
remove_suffix suffix String.[] = String.[]
remove_suffix suffix (String.◌∷◌ c s) =
    let rest = String.◌∷◌ c (remove_suffix suffix s) in
    if String.◌∷◌ c s == suffix then String.[] else rest

-- `prefix in s` for the code points of `s`
unfoldable pub has_char : ℕ → String → Bool
has_char c String.[] = false
has_char c (String.◌∷◌ d s) = eqb (code d) c || has_char c s

-- The order of texts by code points.
abbrev pub str_le : String → String → Bool
str_le a b = elim (compare a b) [ Ordering.gt ↦ false | _ ↦ true ]

unfoldable pub insert_sorted : String → List String → List String
insert_sorted x [] = x ∷ []
insert_sorted x (y ∷ ys) =
    let rest = y ∷ insert_sorted x ys in if str_le x y then x ∷ y ∷ ys else rest

-- `sorted(xs)`
unfoldable pub sorted : List String → List String
unfolding insert_sorted
sorted [] = []
sorted (x ∷ xs) = insert_sorted x (sorted xs)

-- `s.startswith(old)`
abbrev pub starts : String → String → Bool
starts old s = elim (strip_prefix old s) [ none ↦ false | some rest ↦ true ]

-- `old in s`, for a text that is not empty
unfoldable pub has_text : String → String → Bool
unfolding strip_prefix
has_text old String.[] = false
has_text old (String.◌∷◌ c s) = let rest = has_text old s in starts old (String.◌∷◌ c s) || rest

-- The texts differ at a position that both have.
unfoldable pub clashes : String → String → Bool
clashes (String.◌∷◌ c p) (String.◌∷◌ d s) = if eqb (code c) (code d) then clashes p s else true
clashes _ _ = false

pub strip_prefix_clash : (p s t : String) → clashes p s ≡ true → strip_prefix p (s <> t) ≡ none
unfolding strip_prefix clashes
strip_prefix_clash String.[] s t h = ground arith
strip_prefix_clash (String.◌∷◌ c p) String.[] t h = ground arith
strip_prefix_clash (String.◌∷◌ c p) (String.◌∷◌ d s) t h =
    rw cons-append (ground (arith, strip_prefix_clash p s t))

pub all_chars-append :
    (test : ℕ → Bool) (s t : String)
    → all_chars test (s <> t) ≡ (all_chars test s && all_chars test t)
unfolding all_chars
all_chars-append test String.[] t = rw nil-append
all_chars-append test (String.◌∷◌ c s) t =
    rw cons-append (ground (arith, all_chars-append test s t))

pub all_chars_mono :
    (test other : ℕ → Bool) (s : String)
    → ((c : ℕ) → test c ≡ true → other c ≡ true)
    → all_chars test s ≡ true
    → all_chars other s ≡ true
unfolding all_chars
all_chars_mono test other String.[] f h = refl
all_chars_mono test other (String.◌∷◌ c s) f h =
    ground (arith, f (code c), all_chars_mono test other s f)

-- A split in `s <> t` at the first separator of `t`, when `s` has none.
pub split_first-append :
    (sep : ℕ) (s t before behind : String)
    → all_chars (λ c. not (eqb c sep)) s ≡ true
    → split_first sep t ≡ some (before, behind)
    → split_first sep (s <> t) ≡ some (s <> before, behind)
unfolding split_first all_chars
split_first-append sep String.[] t before behind h e = rw (nil-append t, nil-append before) e
split_first-append sep (String.◌∷◌ c s) t before behind h e =
    rw (cons-append c s t, cons-append c s before)
      (ground (arith, split_first-append sep s t before behind, e))

pub is_nonempty-append : (s t : String) → is_nonempty s ≡ true → is_nonempty (s <> t) ≡ true
unfolding is_nonempty
is_nonempty-append String.[] t h = cc
is_nonempty-append (String.◌∷◌ c s) t h = rw cons-append refl
