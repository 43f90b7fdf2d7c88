-- ===== src/ApplyConfig/Guards.antt =====
-- What has to hold before a configuration reaches a router.
use nyc_pa_aws_gitops.Prelude.{
  ℕ, String, ◌≡◌, ◌⊎◌, inl, inr, refl, subst, sym, ap, Bool, true, false, not, ◌&&◌, ◌||◌, arith,
  if◌then◌else◌, has_text, take_chars, Bool-cases,
}
use nyc_pa_aws_gitops.Prelude.Results.{
  Result, ok, err, ◌>>=◌, reject_if, >>=-eq-ok, reject_if-eq-ok, ok_inj,
}
use nyc_pa_aws_gitops.ApplyConfig.{
  Import, dropped, printed, Args, Tools, Connection, connected, changed_key, failed, stopped,
  imported, is_given, wg_placeholder, passwords, fill_key, fill_password, is_failed, prepare,
  import_text, with_session, connect_with, apply_config,
}

-- The exit code after an import: 0 when the session was lost or neither error text is in what the first
-- 8192 bytes of the output decode to, and 1 when one of them is.
pub data ExitOf (w : Tools) : Import → ℕ → Type 0 where
  lost : ExitOf w dropped 0
  fine :
      (bytes : String)
      → has_text "Script Error" (w.decode (take_chars 8192 bytes)) ≡ false
      → has_text "failure:" (w.decode (take_chars 8192 bytes)) ≡ false
      → ExitOf w (printed bytes) 0
  told :
      (bytes : String)
      → (has_text "Script Error" (w.decode (take_chars 8192 bytes)) ≡ true)
        ⊎ (has_text "failure:" (w.decode (take_chars 8192 bytes)) ≡ true)
      → ExitOf w (printed bytes) 1

ExitOf-is_failed : (w : Tools) (m : Import) → ExitOf w m (if is_failed w m then 1 else 0)
unfolding is_failed
ExitOf-is_failed w dropped = lost
ExitOf-is_failed w (printed bytes) =
    let out = w.decode (take_chars 8192 bytes) in
    elim (Bool-cases (has_text "Script Error" out)) [
      | inl e ↦ rw e (told bytes (inl e))
      | inr e ↦ elim (Bool-cases (has_text "failure:" out)) [
        | inl f ↦ rw (e, f) (told bytes (inr f))
        | inr f ↦ rw (e, f) (fine bytes e f)
      ]
    ]

-- A text that was uploaded and imported, and the exit code that goes with it: the WireGuard key was
-- given or the configuration asks for none, the host keys are pinned or an unknown host was accepted
-- on purpose, and the router was reached with the password for SSH.
pub record IsApplied (a : Args) (w : Tools) (text : String) (code : ℕ) : Type 0 where
  pub new : String
  pub ssh : String
  pub filled : String
  pub known : passwords a w ≡ ok (new, ssh)
  pub keyed : fill_key a w ≡ ok filled
  pub key_there : (is_given a.wg_key_ssm ≡ true) ⊎ (has_text wg_placeholder w.content ≡ false)
  pub trusted : w.has_known_hosts || a.accept_new_host_key ≡ true
  pub text_filled : text ≡ fill_password new filled
  pub reached : w.connect a.host ssh w.has_known_hosts a.accept_new_host_key ≡ connected
  pub uploaded : w.upload text ≡ true
  pub exit : ExitOf w (w.import_config text) code

fill_key-ok :
    (a : Args) (w : Tools) (t : String)
    → fill_key a w ≡ ok t
    → (is_given a.wg_key_ssm ≡ true) ⊎ (has_text wg_placeholder w.content ≡ false)
unfolding fill_key
fill_key-ok a w t h = elim (Bool-cases (is_given a.wg_key_ssm)) [
  | inl e ↦ inl e
  | inr e ↦
      (let (x, b, g) = >>=-eq-ok (reject_if (has_text wg_placeholder w.content) 1) _ (rw e at h) in
        inr (reject_if-eq-ok (has_text wg_placeholder w.content) 1 b))
]

import_text-imported :
    (w : Tools) (s text : String) (b : Bool) (code : ℕ)
    → import_text w s b ≡ imported text code
    → (b ≡ true) × (s ≡ text) × (code ≡ (if is_failed w (w.import_config s) then 1 else 0))
import_text-imported w s text false code h = cc
import_text-imported w s text true code h = (refl, cc, cc)

with_session-imported :
    (w : Tools) (s text : String) (c : Connection) (code : ℕ)
    → with_session w s c ≡ imported text code
    → (c ≡ connected) × (import_text w s (w.upload s) ≡ imported text code)
with_session-imported w s text connected code h = (refl, h)
with_session-imported w s text changed_key code h = cc
with_session-imported w s text failed code h = cc

connect_with-imported :
    (a : Args) (w : Tools) (m : Result ℕ (String × String)) (text : String) (code : ℕ)
    → connect_with a w m ≡ imported text code
    → (password : String) × (m ≡ ok (text, password))
      × (w.connect a.host password w.has_known_hosts a.accept_new_host_key ≡ connected)
      × (w.upload text ≡ true)
      × (code ≡ (if is_failed w (w.import_config text) then 1 else 0))
connect_with-imported a w (err n) text code h = cc
connect_with-imported a w (ok (s, password)) text code h =
    let (e, g) = with_session-imported w s text _ code h in
    let (u, x, y) = import_text-imported w s text (w.upload s) code g in
    (
      password,
      ap (λ s. ok (s, password)) x,
      e,
      subst (λ t. w.upload t ≡ true) x u,
      subst (λ t. code ≡ (if is_failed w (w.import_config t) then 1 else 0)) x y,
    )

trusted_if : (k acc : Bool) → not k && not acc ≡ false → k || acc ≡ true
trusted_if k acc h = ground arith

applied :
    (a : Args) (w : Tools) (text : String) (code : ℕ) (password : String) (p : String × String)
    (filled : String)
    → passwords a w ≡ ok p
    → fill_key a w ≡ ok filled
    → w.has_known_hosts || a.accept_new_host_key ≡ true
    → ◌≡◌ {A = String × String} (fill_password p.0 filled, p.1) (text, password)
    → w.connect a.host password w.has_known_hosts a.accept_new_host_key ≡ connected
    → w.upload text ≡ true
    → code ≡ (if is_failed w (w.import_config text) then 1 else 0)
    → IsApplied a w text code
applied a w text code password (new, ssh) filled b2 b3 t e c u x = record {
  new = new;
  ssh = ssh;
  filled = filled;
  known = b2;
  keyed = b3;
  key_there = (fill_key-ok a w filled b3);
  trusted = t;
  text_filled = (sym (ap (λ (q : String × String). q.0) e));
  reached =
      (subst (λ t. w.connect a.host t w.has_known_hosts a.accept_new_host_key ≡ connected)
        (sym (ap (λ (q : String × String). q.1) e)) c);
  uploaded = u;
  exit =
      (subst (ExitOf w (w.import_config text)) (sym x) (ExitOf-is_failed w (w.import_config text)));
}

-- When a text was imported, the passwords were read, the WireGuard key was given or the configuration has
-- no placeholder for it, the host keys are pinned or an unknown host was accepted on purpose, the text is the
-- configuration with the key and the new password filled in, and the router was reached with the password for
-- SSH. The exit code is 1 when an error text is in what the first 8192 bytes of the output decode to, and 0
-- when none is, or when the session was lost.
pub apply_config-IsApplied :
    (a : Args) (w : Tools) (text : String) (code : ℕ)
    → apply_config a w ≡ imported text code
    → IsApplied a w text code
unfolding apply_config prepare
apply_config-IsApplied a w text code h =
    let (password, e, c, u, x) = connect_with-imported a w (prepare a w) text code h in
    let (p1, b1, h1) =
      >>=-eq-ok (reject_if (is_given a.ssh_password && not (is_given a.ssm)) 2) _ e in
    let (p, b2, h2) = >>=-eq-ok (passwords a w) _ h1 in
    let (filled, b3, h3) = >>=-eq-ok (fill_key a w) _ h2 in
    let (p4, b4, h4) =
      >>=-eq-ok (reject_if (not w.has_known_hosts && not a.accept_new_host_key) 1) _ h3 in
    applied a w text code password p filled b2 b3
      (trusted_if w.has_known_hosts a.accept_new_host_key
        (reject_if-eq-ok (not w.has_known_hosts && not a.accept_new_host_key) 1 b4))
      (ok_inj h4) c u x

fill_key-refused :
    (a : Args) (w : Tools)
    → has_text wg_placeholder w.content ≡ true
    → is_given a.wg_key_ssm ≡ false
    → fill_key a w ≡ err 1
unfolding fill_key
fill_key-refused a w h e = rw (e, h) refl

no_text :
    (m : Result ℕ (String × String))
    → (code : ℕ) × (◌≡◌ {A = Result ℕ (String × String)} (m >>= λ p. err 1) (err code))
no_text (ok p) = (1, refl)
no_text (err n) = (n, refl)

prepare-refused :
    (a : Args) (w : Tools) → fill_key a w ≡ err 1 → (code : ℕ) × (prepare a w ≡ err code)
unfolding prepare
prepare-refused a w h = elim (Bool-cases (is_given a.ssh_password && not (is_given a.ssm))) [
  | inl e ↦ (2, rw e refl)
  | inr e ↦ rw (e, h) (no_text (passwords a w))
]

-- A configuration that still has the placeholder of the WireGuard key never reaches a router unless
-- the key is given: the script ends before it connects.
pub apply_config-stopped :
    (a : Args) (w : Tools)
    → has_text wg_placeholder w.content ≡ true
    → is_given a.wg_key_ssm ≡ false
    → (code : ℕ) × (apply_config a w ≡ stopped code)
unfolding apply_config
apply_config-stopped a w h e =
    let (code, x) = prepare-refused a w (fill_key-refused a w h e) in
    (code, ap (connect_with a w) x)
