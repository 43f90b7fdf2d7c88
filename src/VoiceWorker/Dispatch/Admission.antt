-- ===== src/VoiceWorker/Dispatch/Admission.antt =====
-- What `start` lets into the queue, and that nothing else changes the files.
use Prim.Native.String.{count}
use nyc_pa_aws_gitops.Prelude.{
  ◌≤◌, ◌<◌, String, ◌≡◌, ◌≢◌, refl, Bool, true, false, not, ◌||◌, Option, none, some, ◌==◌, eq_iff,
  ltb, leb, arith, contains, subst,
}
use nyc_pa_aws_gitops.Prelude.Dict.{Dict, get}
use nyc_pa_aws_gitops.Prelude.Json.{Json, null, bool, num, str, arr, obj, to_dict}
use nyc_pa_aws_gitops.Prelude.Python.{Python}
use nyc_pa_aws_gitops.Prelude.Results.{ok, reject_if, >>=-eq-ok, reject_if-eq-ok, ok_inj}
use nyc_pa_aws_gitops.VoiceWorker.Dispatch.{
  Config, Disk, Input, bad_length, not_allowed, too_many, max_instructions, active, instructions_of,
  is_allowed_repo, or_json, new_task, new_id, admit_request,
}

-- A task that passed the checks of `start`.
pub record IsAdmitted (c : Config) (d : Disk) (i : Input) (t : Dict Json) : Type 0 where
  pub repo : String
  pub instructions : String
  pub id_kept : get "id" t ≡ some (str (new_id i))
  pub repo_kept : get "repo" t ≡ some (str repo)
  pub repo_allowed : contains c.allowed_repos repo ≡ true
  pub instructions_kept : get "instructions" t ≡ some (str instructions)
  pub not_empty : instructions ≢ ""
  pub not_long : count instructions ≤ max_instructions
  pub room : active d < c.max_active

not-false : (b : Bool) → not b ≡ false → b ≡ true
not-false b h = ground arith

module _ (py : Python) (c : Config) (d : Disk) (i : Input) where
  allowed_text :
      (v : Json)
      → is_allowed_repo c v ≡ true
      → (r : String) × (v ≡ str r) × (contains c.allowed_repos r ≡ true)
  unfolding is_allowed_repo
  allowed_text (str r) h = (r, refl, h)
  allowed_text null h = cc
  allowed_text (bool b) h = cc
  allowed_text (num t) h = cc
  allowed_text (arr xs) h = cc
  allowed_text (obj fs) h = cc

  repo_there :
      (req : Dict Json) (v : Json)
      → v ≡ or_json (get "repo" req) (str "")
      → (r : String) → v ≡ str r
      → some (or_json (get "repo" req) (str "")) ≡ some (str r)
  repo_there req v e r er = cc

  admitted :
      (req : Dict Json) (v : Json) (s : String)
      → v ≡ or_json (get "repo" req) (str "")
      → is_allowed_repo c v ≡ true
      → (s == "" || ltb max_instructions (count s)) ≡ false
      → leb c.max_active (active d) ≡ false
      → IsAdmitted c d i (new_task py req s i (new_id i))
  unfolding get allowed_text
  admitted req v s e a b f =
      let (r, er, inside) = allowed_text v a in
      record {
        repo = r;
        instructions = s;
        id_kept = refl;
        repo_kept = (repo_there req v e r er);
        repo_allowed = inside;
        instructions_kept = refl;
        not_empty = (ground (arith, eq_iff s ""));
        not_long = (ground arith);
        room = (ground arith);
      }

  pub checked :
      (o : Option Json) (t : Dict Json) → admit_request py c d i o ≡ ok t → IsAdmitted c d i t
  unfolding admit_request
  checked none t h = cc
  checked (some null) t h = cc
  checked (some (bool b)) t h = cc
  checked (some (num n)) t h = cc
  checked (some (str r)) t h = cc
  checked (some (arr xs)) t h = cc
  checked (some (obj fs)) t h =
      let req = to_dict fs in
      let repo = or_json (get "repo" req) (str "") in
      let (s, _, h1) = >>=-eq-ok (instructions_of (get "instructions" req)) _ h in
      let (x, a, h2) =
        >>=-eq-ok (reject_if (not (is_allowed_repo c repo)) (not_allowed repo)) _ h1 in
      let (y, b, h3) =
        >>=-eq-ok (reject_if (s == "" || ltb max_instructions (count s)) bad_length) _ h2 in
      let (z, f, h4) =
        >>=-eq-ok (reject_if (leb c.max_active (active d)) (too_many (active d))) _ h3 in
      subst (λ u. IsAdmitted c d i u) (ok_inj h4)
        (admitted req repo s refl
          (not-false _ (reject_if-eq-ok (not (is_allowed_repo c repo)) (not_allowed repo) a))
          (reject_if-eq-ok (s == "" || ltb max_instructions (count s)) bad_length b)
          (reject_if-eq-ok (leb c.max_active (active d)) (too_many (active d)) f))
