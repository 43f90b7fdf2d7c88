-- ===== src/Prelude/DictLaws.antt =====
-- The laws of the dicts that the components use.
use Prim.Native.String.{String}
use mathlib.Core.Path.{◌≡◌, refl}
use mathlib.Core.Bool.{Bool, true, false}
use mathlib.Core.Option.{none, some}
use mathlib.Core.List.{[], ◌∷◌}
use native.Mathlib.Omega.{arith}
use text.Mathlib.Text.{◌==◌}
use text.Mathlib.TextEquality.{eq_iff}
use nyc_pa_aws_gitops.Prelude.Tests.{if◌then◌else◌}
use nyc_pa_aws_gitops.Prelude.Dict.{Dict, get, set, keep_keys, keys, has}

module _ {ℓ} {V : Type ℓ} where
  -- Every key of `d` passes the test.
  abbrev pub KeysPass : (String → Bool) → Dict V → Type 0
  KeysPass test [] = Unit
  KeysPass test ((j, w) ∷ d) = (test j ≡ true) × KeysPass test d

  -- No key is listed twice.
  abbrev pub NodupKeys : Dict V → Type 0
  NodupKeys [] = Unit
  NodupKeys ((j, w) ∷ d) = (has j d ≡ false) × NodupKeys d

  pub get-set :
      (j k : String) (v : V) (d : Dict V) → get j (set k v d) ≡ (if j == k then some v else get j d)
  unfolding get set
  get-set j k v [] = refl
  get-set j k v ((i, w) ∷ d) = ground (arith, eq_iff j k, eq_iff k i, eq_iff j i, get-set j k v d)

  pub get-keep_keys :
      (test : String → Bool) (k : String) (d : Dict V)
      → get k (keep_keys test d) ≡ (if test k then get k d else none)
  unfolding get keep_keys
  get-keep_keys test k [] = ground arith
  get-keep_keys test k ((j, w) ∷ d) = ground (arith, eq_iff k j, get-keep_keys test k d)

  -- Writing what is there changes nothing.
  pub set_same : (k : String) (v : V) (d : Dict V) → get k d ≡ some v → set k v d ≡ d
  unfolding get set
  set_same k v [] h = ground arith
  set_same k v ((j, w) ∷ d) h = ground (arith, set_same k v d)

  pub set-set : (k : String) (v w : V) (d : Dict V) → set k v (set k w d) ≡ set k v d
  unfolding set
  set-set k v w [] = ground (arith, eq_iff k k)
  set-set k v w ((j, u) ∷ d) = ground (arith, set-set k v w d)

  pub keep_keys_all : (test : String → Bool) (d : Dict V) → KeysPass test d → keep_keys test d ≡ d
  unfolding keep_keys
  keep_keys_all test [] h = refl
  keep_keys_all test ((j, w) ∷ d) h = ground (arith, keep_keys_all test d h.1)

  pub KeysPass-keep_keys : (test : String → Bool) (d : Dict V) → KeysPass test (keep_keys test d)
  unfolding keep_keys
  KeysPass-keep_keys test [] = tt
  KeysPass-keep_keys test ((j, w) ∷ d) = ground (arith, KeysPass-keep_keys test d)

  pub KeysPass-set :
      (test : String → Bool) (k : String) (v : V) (d : Dict V)
      → test k ≡ true
      → KeysPass test d
      → KeysPass test (set k v d)
  unfolding set
  KeysPass-set test k v [] t h = (t, tt)
  KeysPass-set test k v ((j, w) ∷ d) t h = ground (arith, KeysPass-set test k v d t h.1)

  -- Only keys of the first test pass on to a second one that it implies.
  pub KeysPass-mono :
      (test other : String → Bool) (d : Dict V)
      → ((k : String) → test k ≡ true → other k ≡ true)
      → KeysPass test d
      → KeysPass other d
  KeysPass-mono test other [] f h = tt
  KeysPass-mono test other ((j, w) ∷ d) f h = (f j h.0, KeysPass-mono test other d f h.1)

  pub keys-set_old : (k : String) (v : V) (d : Dict V) → has k d ≡ true → keys (set k v d) ≡ keys d
  unfolding keys set has
  keys-set_old k v [] h = ground arith
  keys-set_old k v ((j, w) ∷ d) h = ground (arith, keys-set_old k v d)

  pub has_of_get : (k : String) (v : V) (d : Dict V) → get k d ≡ some v → has k d ≡ true
  unfolding get has
  has_of_get k v [] h = ground arith
  has_of_get k v ((j, w) ∷ d) h = ground (arith, has_of_get k v d)

  pub has-set :
      (j k : String) (v : V) (d : Dict V) → has j (set k v d) ≡ (if j == k then true else has j d)
  unfolding has set
  has-set j k v [] = refl
  has-set j k v ((i, w) ∷ d) = ground (arith, eq_iff j k, eq_iff k i, eq_iff j i, has-set j k v d)
