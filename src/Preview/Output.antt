-- ===== src/Preview/Output.antt =====
-- `set_in` and `services_json`: what they do to names and to settings.
use nyc_pa_aws_gitops.Prelude.{
  String, ◌≡◌, ◌≢◌, refl, ap, true, some, [], ◌∷◌, ◌==◌, eq_iff, arith, if◌then◌else◌, Bool-cases,
  inl, inr,
}
use nyc_pa_aws_gitops.Prelude.Dict.{Dict, keys, has}
use nyc_pa_aws_gitops.Prelude.DictLaws.{get-set}
use nyc_pa_aws_gitops.Prelude.Json.{Json}
use nyc_pa_aws_gitops.Preview.{Service, set_in, get_in, services_json}

pub keys-set_in :
    (name key : String) (v : Json) (d : Dict Service) → keys (set_in name key v d) ≡ keys d
unfolding keys set_in
keys-set_in name key v [] = refl
keys-set_in name key v ((j, svc) ∷ d) = ground (arith, keys-set_in name key v d)

pub keys-services_json : (d : Dict Service) → keys (services_json d) ≡ keys d
unfolding keys services_json
keys-services_json [] = refl
keys-services_json ((j, svc) ∷ d) = ap (λ ks. j ∷ ks) (keys-services_json d)

-- A written setting is read back, and no other setting of the service changes.
pub get_in-set_in :
    (name key other : String) (v : Json) (d : Dict Service)
    → has name d ≡ true
    → get_in name other (set_in name key v d)
      ≡ (if other == key then some v else get_in name other d)
unfolding get_in set_in has
get_in-set_in name key other v [] h = cc
get_in-set_in name key other v ((j, svc) ∷ d) h = elim (Bool-cases (name == j)) [
  | inl same ↦ rw (same, set_in, get_in) (rw (same, get_in) (rw get-set))
  | inr differ ↦ ground (arith, get_in-set_in name key other v d)
]

-- The other services are left alone.
pub get_in-set_in_ne :
    (name j key other : String) (v : Json) (d : Dict Service)
    → name ≢ j
    → get_in j other (set_in name key v d) ≡ get_in j other d
unfolding get_in set_in
get_in-set_in_ne name j key other v [] h = refl
get_in-set_in_ne name j key other v ((i, svc) ∷ d) h =
    ground (arith, eq_iff name i, eq_iff j i, get_in-set_in_ne name j key other v d)

-- A written dict still has a service in it.
pub set_in-ne-nil :
    (name key : String) (v : Json) (d : Dict Service) → has name d ≡ true → set_in name key v d ≢ []
unfolding set_in has
set_in-ne-nil name key v [] h = cc
set_in-ne-nil name key v ((j, svc) ∷ d) h = ground arith

pub has-set_in :
    (name key other : String) (v : Json) (d : Dict Service)
    → has other (set_in name key v d) ≡ has other d
unfolding has set_in
has-set_in name key other v [] = refl
has-set_in name key other v ((j, svc) ∷ d) = ground (arith, has-set_in name key other v d)
