-- ===== src/HomeMcp/Updates/Checks/EndOfLife.antt =====
-- What `_eol_line` says of a release line.
use nyc_pa_aws_gitops.Prelude.{
  ◌+◌, ◌≤◌, ◌<◌, String, ◌<>◌, ◌≡◌, refl, Bool, true, false, Option, none, some, List, [], ◌∷◌,
  ◌++◌, ◌==◌, arith, leb, Bool-cases, inl, inr, All,
}
use nyc_pa_aws_gitops.Prelude.Results.{ok}
use nyc_pa_aws_gitops.Prelude.Dict.{Dict, get}
use nyc_pa_aws_gitops.Prelude.Json.{Json, str, truthy}
use nyc_pa_aws_gitops.Prelude.Python.{Python}
use nyc_pa_aws_gitops.Prelude.Dates.{Date, ordinal, date_of}
use nyc_pa_aws_gitops.HomeMcp.Updates.Images.{Step}
use nyc_pa_aws_gitops.HomeMcp.Updates.Checks.{value_of, rated, is_cycle, release_line, eol_line}

-- What is said of a release line that ends on `text`, the day `d`: that it is urgent up to 60 days before,
-- that it is not up to 180 days before, and nothing earlier.
pub data Phase (today : Date) (text : String) (d : Date) (r : Step (Option (String × Bool)))
    : Type 0 where
  soon :
      ordinal d ≤ ordinal today + 60
      → r ≡ ok (some ("reaches end of life on " <> text, true))
      → Phase today text d r
  near :
      ordinal today + 60 < ordinal d
      → ordinal d ≤ ordinal today + 180
      → r ≡ ok (some ("reaches end of life on " <> text, false))
      → Phase today text d r
  far : ordinal today + 180 < ordinal d → r ≡ ok none → Phase today text d r

rated-Phase :
    (today : Date) (text : String) (d : Date) → Phase today text d (ok (rated today text d))
rated-Phase today text d = elim (Bool-cases (leb (ordinal d) (ordinal today + 180))) [
  | inr e ↦ far (ground (arith, e)) (rw e refl)
  | inl e ↦ elim (Bool-cases (leb (ordinal d) (ordinal today + 60))) [
    | inl u ↦ soon (ground (arith, u)) (rw (e, u) refl)
    | inr u ↦ near (ground (arith, u)) (ground (arith, e)) (rw (e, u) refl)
  ]
]

release-Phase :
    (py : Python) (today : Date) (rel : Dict Json) (text : String) (d : Date)
    → truthy (value_of (get "isEol" rel)) ≡ false
    → get "eolFrom" rel ≡ some (str text)
    → text == "" ≡ false
    → date_of text ≡ some d
    → Phase today text d (release_line py today rel)
unfolding release_line
release-Phase py today rel text d live ends nonempty day =
    rw (live, ends, nonempty, day) (rated-Phase today text d)

-- For the first release line of a cycle, when it has not reached its end of life and its end is the text of a
-- day: `_eol_line` says that it ends, as urgent, when the day is at most 60 days ahead; as not urgent, from 61
-- to 180 days ahead; and nothing when it is further ahead. The lines before it are of other cycles.
pub eol_line-Phase :
    (py : Python) (before : List (Dict Json)) (rel : Dict Json) (after : List (Dict Json))
    (cycle : String) (today : Date) (text : String) (d : Date)
    → All (λ other. is_cycle py cycle other ≡ false) before
    → is_cycle py cycle rel ≡ true
    → truthy (value_of (get "isEol" rel)) ≡ false
    → get "eolFrom" rel ≡ some (str text)
    → text == "" ≡ false
    → date_of text ≡ some d
    → Phase today text d (eol_line py (before ++ (rel ∷ after)) cycle today)
unfolding eol_line
eol_line-Phase py [] rel after cycle today text d others mine live ends nonempty day =
    rw mine (release-Phase py today rel text d live ends nonempty day)
eol_line-Phase py (o ∷ before) rel after cycle today text d others mine live ends nonempty day =
    rw others.0
      (eol_line-Phase py before rel after cycle today text d others.1 mine live ends nonempty day)
