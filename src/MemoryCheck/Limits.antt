-- ===== src/MemoryCheck/Limits.antt =====
-- The limit that `limit_of` finds stands in the service.
use nyc_pa_aws_gitops.Prelude.{
  String, ◌≡◌, ◌≢◌, ◌∙◌, refl, sym, ap, subst, Bool, true, false, if◌then◌else◌, Option, none, some,
  List, [], ◌∷◌, Bool-cases, inl, inr,
}
use nyc_pa_aws_gitops.Prelude.Results.{ok, err, >>=-eq-ok, ok_inj}
use nyc_pa_aws_gitops.Prelude.Dict.{get}
use nyc_pa_aws_gitops.Prelude.Json.{Json, null, bool, num, str, arr, obj, Fields, to_dict, truthy}
use nyc_pa_aws_gitops.MemoryCheck.Sizes.{IsWritten, text_size-IsWritten}
use nyc_pa_aws_gitops.MemoryCheck.{
  Step, Input, Size, size, is_set, or_null, size_bytes, get_in, limit_of,
}

-- The value `w` stands in `v` behind the keys.
pub data At : List String → Json → Json → Type 0 where
  here : (v : Json) → At [] v v
  inside :
      (k : String) (keys : List String) (fs : Fields) (v w : Json)
      → get k (to_dict fs) ≡ some v
      → At keys v w
      → At (k ∷ keys) (obj fs) w

-- The value is a number, or a text that writes a size, and what Python makes of it is not zero.
pub data IsSize (i : Input) : Json → Type 0 where
  number : (t : String) (z : Size) → i.int_of t ≡ ok z → z ≢ size 0 → IsSize i (num t)
  text : (t : String) (z : Size) → IsWritten i t z → z ≢ size 0 → IsSize i (str t)

-- The service has a limit that is not zero, its own or that of its deployment.
pub data IsLimited (i : Input) (svc : Json) : Type 0 where
  own : (v : Json) → At ("mem_limit" ∷ []) svc v → IsSize i v → IsLimited i svc
  deployed :
      (v : Json)
      → At ("deploy" ∷ "resources" ∷ "limits" ∷ "memory" ∷ []) svc v
      → IsSize i v
      → IsLimited i svc

is_null : Json → Bool
is_null null = true
is_null v = false

not_zero : (z : Size) → is_set (some z) ≡ true → z ≢ size 0
not_zero z h e = let zero_set = subst (λ y. is_set (some y) ≡ true) e h in cc

of_number :
    (i : Input) (t : String) (o : Option Size)
    → size_bytes i (num t) ≡ ok o
    → is_set o ≡ true
    → IsSize i (num t)
unfolding size_bytes
of_number i t o h e =
    let (z, f, g) = >>=-eq-ok (i.int_of t) _ h in
    number t z f (not_zero z (subst (λ x. is_set x ≡ true) (sym (ok_inj g)) e))

of_text :
    (i : Input) (t : String) (o : Option Size)
    → size_bytes i (str t) ≡ ok o
    → is_set o ≡ true
    → IsSize i (str t)
unfolding size_bytes
of_text i t none h e = cc
of_text i t (some z) h e = text t z (text_size-IsWritten i t z h) (not_zero z e)

unset :
    {A : Type 0} {o : Option Size}
    → ◌≡◌ {A = Step (Option Size)} (ok none) (ok o)
    → is_set o ≡ true
    → A
unset h e = let none_set = subst (λ x. is_set x ≡ true) (sym (ok_inj h)) e in cc

size_bytes-IsSize :
    (i : Input) (v : Json) (o : Option Size) → size_bytes i v ≡ ok o → is_set o ≡ true → IsSize i v
unfolding size_bytes
size_bytes-IsSize i null o h e = unset h e
size_bytes-IsSize i (bool b) o h e = unset h e
size_bytes-IsSize i (num t) o h e = of_number i t o h e
size_bytes-IsSize i (str t) o h e = of_text i t o h e
size_bytes-IsSize i (arr xs) o h e = unset h e
size_bytes-IsSize i (obj fs) o h e = unset h e

IsSize-is_null : (i : Input) (v : Json) → IsSize i v → is_null v ≡ false
unfolding is_null
IsSize-is_null i _ (number t z h k) = refl
IsSize-is_null i _ (text t z h k) = refl

of_falsy :
    {A : Type 0} (b : Bool) (w : Json)
    → ◌≡◌ {A = Step Json} (if b then err "AttributeError" else ok null) (ok w)
    → is_null w ≡ false
    → A
unfolding is_null
of_falsy true w h e = cc
of_falsy false w h e = let null_there = subst (λ x. is_null x ≡ false) (sym (ok_inj h)) e in cc

-- What `get_in` finds, where it is not `null`.
abbrev IsFound : String → Json → Json → Type 0
IsFound k v w = (fs : Fields) × (v ≡ obj fs) × (get k (to_dict fs) ≡ some w)

get-IsFound :
    (k : String) (fs : Fields) (o : Option Json) (w : Json)
    → get k (to_dict fs) ≡ o
    → or_null o ≡ w
    → is_null w ≡ false
    → IsFound k (obj fs) w
unfolding is_null
get-IsFound k fs none w g h e = let null_there = subst (λ x. is_null x ≡ false) (sym h) e in cc
get-IsFound k fs (some x) w g h e = (fs, refl, g ∙ ap (λ y. some y) h)

get_in-IsFound : (k : String) (v w : Json) → get_in k v ≡ ok w → is_null w ≡ false → IsFound k v w
unfolding get_in
get_in-IsFound k (obj fs) w h e = get-IsFound k fs (get k (to_dict fs)) w refl (ok_inj h) e
get_in-IsFound k null w h e = of_falsy (truthy null) w h e
get_in-IsFound k (bool b) w h e = of_falsy (truthy (bool b)) w h e
get_in-IsFound k (num t) w h e = of_falsy (truthy (num t)) w h e
get_in-IsFound k (str t) w h e = of_falsy (truthy (str t)) w h e
get_in-IsFound k (arr xs) w h e = of_falsy (truthy (arr xs)) w h e

IsFound-is_null : (k : String) (v w : Json) → IsFound k v w → is_null v ≡ false
unfolding is_null
IsFound-is_null k v w (fs, e, h) = subst (λ x. is_null x ≡ false) (sym e) refl

IsFound-At :
    (k : String) (keys : List String) (v w u : Json)
    → IsFound k v w
    → At keys w u
    → At (k ∷ keys) v u
IsFound-At k keys v w u (fs, e, h) a =
    subst (λ x. At (k ∷ keys) x u) (sym e) (inside k keys fs w u h a)

pub limit_of-IsLimited :
    (i : Input) (svc : Json) (o : Option Size)
    → limit_of i svc ≡ ok o
    → is_set o ≡ true
    → IsLimited i svc
unfolding limit_of
limit_of-IsLimited i svc o h e =
    let (deploy, e1, h1) = >>=-eq-ok (get_in "deploy" svc) _ h in
    let (resources, e2, h2) = >>=-eq-ok (get_in "resources" deploy) _ h1 in
    let (limits, e3, h3) = >>=-eq-ok (get_in "limits" resources) _ h2 in
    let (memory, e4, h4) = >>=-eq-ok (get_in "memory" limits) _ h3 in
    let (mine, e5, h5) = >>=-eq-ok (get_in "mem_limit" svc) _ h4 in
    let (first, e6, h6) = >>=-eq-ok (size_bytes i mine) _ h5 in
    elim (Bool-cases (is_set first)) [
      | inl b ↦
          let big = size_bytes-IsSize i mine first e6 b in
          let at = get_in-IsFound "mem_limit" svc mine e5 (IsSize-is_null i mine big) in
          own mine (IsFound-At "mem_limit" [] svc mine mine at (here mine)) big
      | inr b ↦
          let big = size_bytes-IsSize i memory o (rw b at h6) e in
          let f4 = get_in-IsFound "memory" limits memory e4 (IsSize-is_null i memory big) in
          let f3 =
            get_in-IsFound "limits" resources limits e3
              (IsFound-is_null "memory" limits memory f4) in
          let f2 =
            get_in-IsFound "resources" deploy resources e2
              (IsFound-is_null "limits" resources limits f3) in
          let f1 =
            get_in-IsFound "deploy" svc deploy e1
              (IsFound-is_null "resources" deploy resources f2) in
          deployed memory
            (IsFound-At "deploy" _ svc deploy memory f1 (
              IsFound-At "resources" _ deploy resources memory f2 (
                IsFound-At "limits" _ resources limits memory f3
                  (IsFound-At "memory" _ limits memory memory f4 (here memory)))))
            big
    ]
