-- ===== src/Prelude/Dict.antt =====
-- Python's `dict` with text keys, in insertion order. A real dict lists a key once.
use Prim.Native.String.{String}
use mathlib.Core.Bool.{Bool, true, false, not}
use mathlib.Core.Option.{Option, none, some}
use mathlib.Core.List.{List, [], ◌∷◌}
use text.Mathlib.Text.{◌==◌}
use nyc_pa_aws_gitops.Prelude.Tests.{if◌then◌else◌}

abbrev pub Dict {ℓ} : Type ℓ → Type ℓ
Dict V = List (String × V)

module _ {ℓ} {V : Type ℓ} where
  -- `d.get(k)`
  unfoldable pub get : String → Dict V → Option V
  get k [] = none
  get k ((j, v) ∷ d) = if k == j then some v else get k d

  -- `d[k] = v`: in place for a key that is there, else at the end
  unfoldable pub set : String → V → Dict V → Dict V
  set k v [] = (k, v) ∷ []
  set k v ((j, w) ∷ d) = if k == j then (j, v) ∷ d else (j, w) ∷ set k v d

  -- The entries whose key passes the test.
  unfoldable pub keep_keys : (String → Bool) → Dict V → Dict V
  keep_keys test [] = []
  keep_keys test ((j, w) ∷ d) =
      let rest = keep_keys test d in if test j then (j, w) ∷ rest else rest

  -- `d.pop(k, None)`
  unfoldable pub pop : String → Dict V → Dict V
  unfolding keep_keys
  pop k = keep_keys (λ j. not (k == j))

  -- `list(d)`
  unfoldable pub keys : Dict V → List String
  keys [] = []
  keys ((j, w) ∷ d) = j ∷ keys d

  -- `k in d`
  unfoldable pub has : String → Dict V → Bool
  has k [] = false
  has k ((j, w) ∷ d) = if k == j then true else has k d
