-- ===== src/ApplyConfig/Tests.antt =====
-- Runs of `apply_config`.
use nyc_pa_aws_gitops.Prelude.{ℕ, has_text, ◌≡◌, refl, true, false, none, some}
use nyc_pa_aws_gitops.ApplyConfig.{
  Args, Tools, connected, printed, stopped, imported, apply_config, is_given,
}
use nyc_pa_aws_gitops.ApplyConfig.Guards.{IsApplied, apply_config-IsApplied, apply_config-stopped}

abbrev with_key : Args
with_key = record {
  host = "10.0.1.1";
  ssm = (some "admin");
  ssh_password = none;
  wg_key_ssm = (some "key");
  accept_new_host_key = false;
}

abbrev no_key : Args
no_key = record with_key { wg_key_ssm = none }

abbrev site : Tools
site = record {
  fetch = (λ name. some "s3cret");
  prompt = "";
  content = "key=WG_PRIVATE_KEY_PLACEHOLDER pw=PLACEHOLDER";
  has_known_hosts = true;
  connect = (λ host password known accept. connected);
  upload = (λ text. true);
  import_config = (λ text. printed "Script Error: duplicate address");
  decode = (λ bytes. bytes);
}

filled_in : apply_config with_key site ≡ imported "key=s3cret pw=s3cret" 1
unfolding apply_config
filled_in = refl

apply_config-IsApplied_example : IsApplied with_key site "key=s3cret pw=s3cret" 1
unfolding apply_config
apply_config-IsApplied_example = apply_config-IsApplied with_key site "key=s3cret pw=s3cret" 1 refl

apply_config-stopped_example : (code : ℕ) × (apply_config no_key site ≡ stopped code)
unfolding has_text is_given
apply_config-stopped_example = apply_config-stopped no_key site refl refl
