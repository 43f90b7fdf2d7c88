-- ===== src/HomeMcp/Jobs/Tokens/Expiry.antt =====
-- When the expiry of the token is told.
use nyc_pa_aws_gitops.Prelude.{
  ℕ, ◌+◌, ◌-◌, ◌*◌, ◌/◌, ◌≤◌, ◌<◌, String, ◌<>◌, ◌≡◌, true, false, some, List, [], ◌∷◌, ◌==◌, arith,
  ltb, leb, eqb, show, plural, Bool-cases, inl, inr,
}
use nyc_pa_aws_gitops.Prelude.Results.{Result, ok}
use nyc_pa_aws_gitops.HomeMcp.Jobs.{Settings}
use nyc_pa_aws_gitops.HomeMcp.Jobs.Tokens.{
  second, day, timestamp, Health, Answer, answered, warn_days, expiry_warnings, warnings_of,
  is_recent, token_warnings,
}

-- The warnings for a token that expires at the second `expires`: one that it has expired, after that time;
-- one with the whole days that are left, when they are at most 21; and none before.
pub data Phase (now expires : ℕ) : List String → Type 0 where
  expired :
      expires * second < now → Phase now expires ("the voice jobs GitHub token has expired" ∷ [])
  expiring :
      (days : ℕ)
      → now + days * day ≤ expires * second
      → expires * second < now + (days + 1) * day
      → days ≤ 21
      → Phase now expires (
          ("the voice jobs GitHub token expires in " <> (show days <> (" day" <> plural days)))
          ∷ [])
  valid : now + 22 * day ≤ expires * second → Phase now expires []

expiry-Phase : (now expires : ℕ) → Phase now expires (expiry_warnings now expires)
unfolding expiry_warnings
expiry-Phase now expires = elim (Bool-cases (ltb (expires * second) now)) [
  | inl h ↦ rw h (expired (ground arith))
  | inr h ↦ elim (Bool-cases (leb ((expires * second - now) / day) warn_days)) [
    | inl d ↦
        let before : now ≤ expires * second = ground arith in
        let few : (expires * second - now) / day ≤ warn_days = ground arith in
        rw (h, d)
          (expiring ((expires * second - now) / day) (omega (arith, before)) (omega (arith, before))
            few)
    | inr d ↦
        let before : now ≤ expires * second = ground arith in
        let many : warn_days < (expires * second - now) / day = ground arith in
        rw (h, d) (valid (omega (arith, many, before)))
  ]
]

-- The warnings and the record of the check.
pub data Checked (clock now expires : ℕ) : Result String (List String) × Health → Type 0 where
  checked :
      (warnings : List String)
      → Phase now expires warnings
      → Checked clock now expires (ok warnings, record { at = clock; warnings = warnings })

-- When the jobs are on, there is a token and the last check is not recent, and GitHub answers, not with
-- 401, that the token expires at a second: the warning is that it has expired, after that; that it expires
-- in the number of whole days left, when they are at most 21; and none earlier. The warnings are kept with
-- the time.
pub token_warnings-Checked :
    (s : Settings) (clock now : ℕ) (a : Answer) (h : Health) (exp : String) (expires : ℕ)
    → s.enabled ≡ true
    → s.token == "" ≡ false
    → is_recent clock h ≡ false
    → eqb a.status 401 ≡ false
    → a.expiration ≡ some exp
    → exp == "" ≡ false
    → timestamp exp ≡ some expires
    → Checked clock now expires (token_warnings s clock now (answered a) h)
unfolding token_warnings warnings_of
token_warnings-Checked s clock now a h exp expires on token old accepted header given read =
    rw (on, token, old, accepted, header, given, read)
      (checked (expiry_warnings now expires) (expiry-Phase now expires))
