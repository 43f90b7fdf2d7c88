-- ===== src/HomeMcp/Updates/Registry/Again.antt =====
-- A lookup that has succeeded is not made again before its value is six hours old.
use nyc_pa_aws_gitops.Prelude.{ℕ, String, ◌≡◌, none}
use nyc_pa_aws_gitops.Prelude.Results.{ok, err}
use nyc_pa_aws_gitops.HomeMcp.Updates.Images.{Step}
use nyc_pa_aws_gitops.HomeMcp.Updates.Registry.{Cache, cached, store, through_cache}

module _ {ℓ} {V : Type ℓ} where
  answered :
      (now done : ℕ) (key : String) (answer : Step V) (cache after : Cache V) (v : V)
      → cached now key cache ≡ none
      → ◌≡◌ {A = Step V × Cache V} (through_cache now done key answer cache) (ok v, after)
      → after ≡ store done key v cache
  unfolding through_cache
  answered now done key (err e) cache after v miss h = cc
  answered now done key (ok a) cache after v miss h = cc
