-- ===== src/ApplyConfig.antt =====
-- routeros/apply-config.py: a configuration is filled in and applied to a router. AWS, the prompt, the
-- SSH library and the router are parameters.
pub mod Guards
mod Tests
use Prim.Native.String.{count}
use nyc_pa_aws_gitops.Prelude.{
  ℕ, zero, suc, ◌-◌, String, ◌<>◌, Bool, true, false, not, ◌&&◌, ◌||◌, Option, none, some, List, [],
  ◌∷◌, ◌==◌, if◌then◌else◌, strip_prefix, starts, has_text, take_chars,
}
use nyc_pa_aws_gitops.Prelude.Results.{Result, ok, err, ◌>>=◌, ◌>>◌, reject_if}

pub record Args : Type 0 where
  pub host : String
  pub ssm : Option String
  pub ssh_password : Option String
  pub wg_key_ssm : Option String
  pub accept_new_host_key : Bool

-- How `client.connect` ends: with a session, `BadHostKeyException`, or any other exception.
pub data Connection : Type 0 where
  connected changed_key failed : Connection

-- What `/import` does: an exception, as when the session is dropped, or its output, as bytes.
pub data Import : Type 0 where
  dropped : Import
  printed : String → Import

-- The world outside. `fetch` is the parameter of AWS, if it can be read; `connect` is given the host,
-- the password, whether the file of known hosts was loaded and whether an unknown host is accepted;
-- `decode` is `bytes.decode(errors="replace")`.
pub record Tools : Type 0 where
  pub fetch : String → Option String
  pub prompt : String
  pub content : String
  pub has_known_hosts : Bool
  pub connect : String → String → Bool → Bool → Connection
  pub upload : String → Bool
  pub import_config : String → Import
  pub decode : String → String

-- How the script ends: before it connects, without a session or without the upload, or with the
-- text that was uploaded and imported; with its exit code.
pub data Outcome : Type 0 where
  stopped : ℕ → Outcome
  no_session : Outcome
  no_upload : Outcome
  imported : String → ℕ → Outcome

-- The truth value of an option of the command line
unfoldable pub is_given : Option String → Bool
is_given none = false
is_given (some t) = not (t == "")

-- `s.replace(old, new)`, with a number of characters of the last match still to pass
unfoldable pub replace_from : String → String → ℕ → String → String
unfolding strip_prefix
replace_from old new n String.[] = String.[]
replace_from old new (suc n) (String.◌∷◌ c s) = replace_from old new n s
replace_from old new zero (String.◌∷◌ c s) =
    let passed = replace_from old new (count old - 1) s in
    let kept = replace_from old new zero s in
    if starts old (String.◌∷◌ c s) then new <> passed else String.◌∷◌ c kept

abbrev pub replace : String → String → String → String
replace old new s = replace_from old new zero s

abbrev pub wg_placeholder : String
wg_placeholder = "WG_PRIVATE_KEY_PLACEHOLDER"

abbrev pub placeholder : String
placeholder = "PLACEHOLDER"

abbrev fetched : Option String → Result ℕ String
fetched none = err 1
fetched (some value) = ok value

-- `args.ssh_password if args.ssh_password else new_password`
abbrev ssh_from : Option String → String → String
ssh_from none new = new
ssh_from (some t) new = if t == "" then new else t

-- `get_ssm_password`
abbrev pub get_ssm_password : Tools → Option String → Result ℕ String
get_ssm_password w none = err 1
get_ssm_password w (some name) = fetched (w.fetch name)

-- The new password and the one for SSH.
unfoldable pub passwords : Args → Tools → Result ℕ (String × String)
unfolding is_given
passwords a w =
    if is_given a.ssm
    then (do new ← get_ssm_password w a.ssm; ok (new, ssh_from a.ssh_password new))
    else ok (w.prompt, w.prompt)

-- The substitution of the WireGuard key, or the refusal.
unfoldable pub fill_key : Args → Tools → Result ℕ String
unfolding is_given has_text replace_from
fill_key a w =
    if is_given a.wg_key_ssm
    then (do key ← get_ssm_password w a.wg_key_ssm; ok (replace wg_placeholder key w.content))
    else (do reject_if (has_text wg_placeholder w.content) 1; ok w.content)

-- The substitution of the password.
unfoldable pub fill_password : String → String → String
unfolding has_text replace_from
fill_password new content =
    if has_text placeholder content then replace placeholder new content else content

-- `stdout.read(8192)`: what the script sees of the output.
abbrev pub seen_bytes : ℕ
seen_bytes = 8192

-- `import_failed`: `"Script Error" in out or "failure:" in out`
unfoldable pub is_failed : Tools → Import → Bool
unfolding has_text take_chars
is_failed w dropped = false
is_failed w (printed bytes) =
    let out = w.decode (take_chars seen_bytes bytes) in
    has_text "Script Error" out || has_text "failure:" out

-- What is sent, once nothing stands against it: the text and the password for SSH.
unfoldable pub prepare : Args → Tools → Result ℕ (String × String)
unfolding passwords fill_key fill_password
prepare a w = do
  reject_if (is_given a.ssh_password && not (is_given a.ssm)) 2
  p ← passwords a w
  content ← fill_key a w
  reject_if (not w.has_known_hosts && not a.accept_new_host_key) 1
  ok (fill_password p.0 content, p.1)

abbrev pub import_text : Tools → String → Bool → Outcome
import_text w text false = no_upload
import_text w text true = imported text (if is_failed w (w.import_config text) then 1 else 0)

abbrev pub with_session : Tools → String → Connection → Outcome
with_session w text connected = import_text w text (w.upload text)
with_session w text c = no_session

abbrev pub connect_with : Args → Tools → Result ℕ (String × String) → Outcome
connect_with a w (err code) = stopped code
connect_with a w (ok (text, password)) =
    with_session w text (w.connect a.host password w.has_known_hosts a.accept_new_host_key)

-- `main`
unfoldable pub apply_config : Args → Tools → Outcome
unfolding prepare is_failed
apply_config a w = connect_with a w (prepare a w)
