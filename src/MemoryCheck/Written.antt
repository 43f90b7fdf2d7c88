-- ===== src/MemoryCheck/Written.antt =====
-- Texts that write a size: a number and a unit, with spaces between and around them.
use text.Mathlib.TextLemmas.{cons-append, nil-append}
use nyc_pa_aws_gitops.Prelude.{
  ℕ, ◌+◌, ◌-◌, ◌*◌, ◌≤◌, code, String, ◌<>◌, ◌≡◌, ◌⊎◌, inl, inr, refl, ap, Bool, true, ◌||◌, arith,
  is_digit, is_lower, is_upper, is_space, lstrip, all_chars, Bool-cases,
}
use nyc_pa_aws_gitops.Prelude.Letters.{lower}
use nyc_pa_aws_gitops.MemoryCheck.{digits_from, letters_from}

-- The number that digits write behind the number `n`.
abbrev pub value : ℕ → String → ℕ
value n String.[] = n
value n (String.◌∷◌ c s) = value (n * 10 + (code c - b'0')) s

abbrev pub many : String → ℕ
many String.[] = 0
many (String.◌∷◌ c s) = many s + 1

abbrev pub is_letter : ℕ → Bool
is_letter c = is_lower c || is_upper c

-- The units, in lower case, with their bytes.
pub data UnitOf (u : String) : ℕ → Type 0 where
  bytes : (u ≡ "") ⊎ (u ≡ "b") → UnitOf u 1
  kilo : (u ≡ "k") ⊎ (u ≡ "kb") → UnitOf u 1024
  mega : (u ≡ "m") ⊎ (u ≡ "mb") → UnitOf u 1048576
  giga : (u ≡ "g") ⊎ (u ≡ "gb") → UnitOf u 1073741824

-- Spaces, the letters of a unit in any case, and spaces.
pub data Ending : String → ℕ → Type 0 where
  unit :
      (a letters b : String) (n : ℕ)
      → all_chars is_space a ≡ true
      → all_chars is_letter letters ≡ true
      → all_chars is_space b ≡ true
      → UnitOf (lower letters) n
      → Ending (a <> (letters <> b)) n

-- Spaces, the digits of a number, of which some can be behind a point, and the unit: the text writes the
-- digits `n`, of which `k` are behind the point, and a unit of so many bytes.
pub data Written : String → ℕ → ℕ → ℕ → Type 0 where
  whole :
      (a digits rest : String) (bytes : ℕ)
      → all_chars is_space a ≡ true
      → all_chars is_digit digits ≡ true
      → 1 ≤ many digits
      → Ending rest bytes
      → Written (a <> (digits <> rest)) (value 0 digits) 0 bytes
  decimal :
      (a digits behind rest : String) (bytes : ℕ)
      → all_chars is_space a ≡ true
      → all_chars is_digit digits ≡ true
      → 1 ≤ many digits
      → all_chars is_digit behind ≡ true
      → 1 ≤ many behind
      → Ending rest bytes
      → Written
          (a <> (digits <> ("." <> (behind <> rest))))
          (value (value 0 digits) behind)
          (many behind)
          bytes

pub lstrip_split : (s : String) → (a : String) × (all_chars is_space a ≡ true) × (s ≡ a <> lstrip s)
unfolding lstrip all_chars
lstrip_split String.[] = (String.[], refl, rw nil-append refl)
lstrip_split (String.◌∷◌ c s) = elim (Bool-cases (is_space (code c))) [
  | inl e ↦
      let (a, h, k) = lstrip_split s in
      (String.◌∷◌ c a, rw e h, rw (e, cons-append) (ap (λ t. String.◌∷◌ c t) k))
  | inr e ↦ (String.[], refl, rw (e, nil-append) refl)
]

pub lstrip_blank : (s : String) → lstrip s ≡ "" → all_chars is_space s ≡ true
unfolding lstrip all_chars
lstrip_blank String.[] h = refl
lstrip_blank (String.◌∷◌ c s) h = elim (Bool-cases (is_space (code c))) [
  | inl e ↦ rw e (lstrip_blank s (rw e at h))
  | inr e ↦ let clash = rw e at h in cc
]

pub letters_split :
    (s : String)
    → (all_chars is_letter (letters_from s).0 ≡ true)
      × (s ≡ (letters_from s).0 <> (letters_from s).1)
unfolding letters_from all_chars
letters_split String.[] = (refl, rw nil-append refl)
letters_split (String.◌∷◌ c s) = elim (Bool-cases (is_lower (code c) || is_upper (code c))) [
  | inl e ↦
      let (h, k) = letters_split s in rw e (rw e h, rw cons-append (ap (λ t. String.◌∷◌ c t) k))
  | inr e ↦ rw e (refl, rw nil-append refl)
]

-- What `digits_from` reads, behind `k` digits and the number `n`.
pub record Read (k n : ℕ) (s : String) (r : ℕ × ℕ × String) : Type 0 where
  pub digits : String
  pub all_digits : all_chars is_digit digits ≡ true
  pub split : s ≡ digits <> r.2
  pub read : r.0 ≡ k + many digits
  pub number : r.1 ≡ value n digits

pub digits_from-Read : (k n : ℕ) (s : String) → Read k n s (digits_from k n s)
unfolding digits_from all_chars
digits_from-Read k n String.[] = record {
  digits = String.[];
  all_digits = refl;
  split = rw nil-append refl;
  read = omega arith;
  number = refl;
}
digits_from-Read k n (String.◌∷◌ c s) = elim (Bool-cases (is_digit (code c))) [
  | inl e ↦
      let r = digits_from-Read (k + 1) (n * 10 + (code c - b'0')) s in
      rw e record {
        digits = String.◌∷◌ c r.digits;
        all_digits = rw e r.all_digits;
        split = rw cons-append (ap (λ t. String.◌∷◌ c t) r.split);
        read = omega (arith, r.read);
        number = r.number;
      }
  | inr e ↦ rw e record {
    digits = String.[];
    all_digits = refl;
    split = rw nil-append refl;
    read = omega arith;
    number = refl;
  }
]
