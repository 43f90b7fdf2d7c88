-- ===== src/Mopeka/Address/Reading.antt =====
-- The text of an address reads back as its last 48 bits.
use nyc_pa_aws_gitops.Prelude.{
  ℕ, zero, suc, ◌+◌, ◌*◌, ◌/◌, ◌%◌, ◌^◌, ◌<◌, Char, code, String, ◌<>◌, ◌≡◌, refl, ap, Bool, true,
  false, ◌&&◌, Option, none, some, arith, eqb, join, Bool-cases, inl, inr, subst,
}
use text.Mathlib.TextLemmas.{cons-append, nil-append}
use nyc_pa_aws_gitops.Mopeka.Address.{
  hex_char, hex_byte, byte_at, mac_of, hex_value, two_digits, read_mac,
}

-- A test holds of each number below `n`.
abbrev all_below : ℕ → (ℕ → Bool) → Bool
all_below zero test = true
all_below (suc n) test = test n && all_below n test

all_below-true : (n : ℕ) (test : ℕ → Bool) (d : ℕ) → all_below n test ≡ true → d < n → test d ≡ true
all_below-true zero test d h k = ground arith
all_below-true (suc n) test d h k = elim (Bool-cases (eqb d n)) [
  | inl e ↦ let same : n ≡ d = ground arith in subst (λ m. test m ≡ true) same (ground arith)
  | inr e ↦ all_below-true n test d (ground arith) (ground (arith, k))
]

abbrev is_value : Option ℕ → ℕ → Bool
is_value none d = false
is_value (some n) d = eqb n d

is_value-true : (o : Option ℕ) (d : ℕ) → is_value o d ≡ true → o ≡ some d
is_value-true none d h = cc
is_value-true (some n) d h = ap some (ground arith)

hex_value-hex_char : (d : ℕ) → d < 16 → hex_value (code (hex_char d)) ≡ some d
unfolding hex_char
hex_value-hex_char d h =
    is_value-true (hex_value (code (hex_char d))) d
      (all_below-true 16 (λ n. is_value (hex_value (code (hex_char n))) n) d refl h)

two_digits-hex :
    (b : ℕ)
    → b < 256
    → two_digits (hex_value (code (hex_char (b / 16)))) (hex_value (code (hex_char (b % 16))))
      ≡ some b
two_digits-hex b h =
    rw (hex_value-hex_char (b / 16) (omega (arith, h)), hex_value-hex_char (b % 16) (omega arith))
      (ap some (omega arith))

read_last : (acc b : ℕ) → b < 256 → read_mac acc (hex_byte b) ≡ some (acc * 256 + b)
unfolding read_mac hex_byte
read_last acc b h = rw (two_digits-hex b h) refl

read_step :
    (acc n : ℕ) (a b : Char) (s : String)
    → two_digits (hex_value (code a)) (hex_value (code b)) ≡ some n
    → read_mac acc (String.◌∷◌ a (String.◌∷◌ b (":" <> s))) ≡ read_mac (acc * 256 + n) s
unfolding read_mac
read_step acc n a b s h = rw (cons-append, nil-append) (ground (arith, h))

read_next :
    (acc b : ℕ) (s : String)
    → b < 256
    → read_mac acc (hex_byte b <> (":" <> s)) ≡ read_mac (acc * 256 + b) s
unfolding hex_byte
read_next acc b s h =
    rw (cons-append, cons-append, nil-append) (read_step acc b _ _ s (two_digits-hex b h))

-- The text that `_mac` makes of an address names its last 48 bits: read as six bytes in upper case with
-- colons between them, the highest first, it is the address modulo 2 ^ 48.
pub read_mac-mac_of : (a : ℕ) → read_mac 0 (mac_of a) ≡ some (a % 2 ^ 48)
unfolding mac_of join
read_mac-mac_of a =
    rw
      (
        read_next 0 (byte_at a 5) _ (omega arith),
        read_next _ (byte_at a 4) _ (omega arith),
        read_next _ (byte_at a 3) _ (omega arith),
        read_next _ (byte_at a 2) _ (omega arith),
        read_next _ (byte_at a 1) _ (omega arith),
        read_last _ (byte_at a 0) (omega arith),
      )
      (ap some (omega arith))
