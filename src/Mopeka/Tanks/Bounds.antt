-- ===== src/Mopeka/Tanks/Bounds.antt =====
-- A fill level stays from 0 to 100 percent.
use nyc_pa_aws_gitops.Prelude.{◌≡◌, true, false, Option, none, some, Bool-cases, inl, inr, subst}
use nyc_pa_aws_gitops.Prelude.Results.{ok, >>=-eq-ok, ok_inj}
use nyc_pa_aws_gitops.Prelude.Json.{truthy}
use nyc_pa_aws_gitops.Mopeka.Tanks.{
  Numbers, Step, Tank, number_of, lower, clamp, percent, empty_of, fill_percent,
}

-- What holds of `<` on floats, NaN included, and of the two bounds.
pub record Ordered {N : Type 0} (nb : Numbers N) : Type 0 where
  pub irrefl : (a : N) → nb.lt a a ≡ false
  pub asym : (a b : N) → nb.lt a b ≡ true → nb.lt b a ≡ false
  pub bounds : nb.lt nb.zero nb.hundred ≡ true

some_inj : {A : Type 0} {a b : A} → ◌≡◌ {A = Option A} (some a) (some b) → a ≡ b
some_inj h = cc

absurd_none : {A C : Type 0} {a : A} → ◌≡◌ {A = Option A} none (some a) → C
absurd_none h = cc

absurd_ok : {A C : Type 0} {a : A} → ◌≡◌ {A = Step (Option A)} (ok none) (ok (some a)) → C
absurd_ok h = cc

-- `r` is neither below 0 nor above 100.
pub data InBounds {N : Type 0} (nb : Numbers N) (r : N) : Type 0 where
  in_bounds : nb.lt r nb.zero ≡ false → nb.lt nb.hundred r ≡ false → InBounds nb r

module _ {N : Type 0} (nb : Numbers N) (laws : Ordered nb) where
  lower_bound : (pct : N) → nb.lt nb.hundred (lower nb pct) ≡ false
  lower_bound pct = elim (Bool-cases (nb.lt pct nb.hundred)) [
    | inl h ↦ rw h (laws.asym pct nb.hundred h)
    | inr h ↦ rw h (laws.irrefl nb.hundred)
  ]

  clamp-InBounds : (pct : N) → InBounds nb (clamp nb pct)
  clamp-InBounds pct = elim (Bool-cases (nb.lt nb.zero (lower nb pct))) [
    | inl h ↦ rw h (in_bounds (laws.asym nb.zero (lower nb pct) h) (lower_bound pct))
    | inr h ↦ rw h (in_bounds (laws.irrefl nb.zero) (laws.asym nb.zero nb.hundred laws.bounds))
  ]

  percent-InBounds : (level full empty r : N) → percent nb level full empty ≡ some r → InBounds nb r
  percent-InBounds level full empty r h = elim (Bool-cases (nb.le (nb.minus full empty) nb.zero)) [
    | inl b ↦ absurd_none (rw b at h)
    | inr b ↦ subst (λ x. InBounds nb x) (some_inj (rw b at h)) (clamp-InBounds _)
  ]

  -- A fill level that is calculated is neither below 0 nor above 100, whatever the reading and the tank,
  -- over numbers whose order is irreflexive and asymmetric, with 0 below 100.
  pub fill_percent-InBounds :
      (level : N) (cfg : Tank) (r : N) → fill_percent nb level cfg ≡ ok (some r) → InBounds nb r
  unfolding fill_percent
  fill_percent-InBounds level cfg r h = elim (Bool-cases (truthy cfg.full_mm)) [
    | inr b ↦ absurd_ok (rw b at h)
    | inl b ↦
        let (full, e, h1) = >>=-eq-ok (number_of nb cfg.full_mm) _ (rw b at h) in
        let (empty, e2, h2) = >>=-eq-ok (number_of nb (empty_of nb cfg.empty_mm)) _ h1 in
        percent-InBounds level full empty r (ok_inj h2)
  ]
