-- ===== src/Mopeka/Address.antt =====
-- compose/nuc/mopeka-exporter/mopeka_exporter.py: `_mac`, and a reading of its texts.
pub mod Reading
use Prim.Native.Char.{char}
use nyc_pa_aws_gitops.Prelude.{
  ℕ, zero, suc, ◌+◌, ◌-◌, ◌*◌, ◌/◌, ◌%◌, ◌^◌, ◌<◌, ◌≤◌, Char, code, String, ◌<>◌, ◌≡◌, refl, Bool,
  true, false, not, ◌&&◌, ◌||◌, Option, none, some, List, [], ◌∷◌, arith, ltb, leb, eqb,
  if◌then◌else◌, join, is_digit, Bool-cases, ◌⊎◌, inl, inr,
}

-- The digit of a number below 16, as `X` writes it.
unfoldable pub hex_char : ℕ → Char
hex_char d =
    if eqb d 0
    then char 48 tt
    else if eqb d 1
    then char 49 tt
    else if eqb d 2
    then char 50 tt
    else if eqb d 3
    then char 51 tt
    else if eqb d 4
    then char 52 tt
    else if eqb d 5
    then char 53 tt
    else if eqb d 6
    then char 54 tt
    else if eqb d 7
    then char 55 tt
    else if eqb d 8
    then char 56 tt
    else if eqb d 9
    then char 57 tt
    else if eqb d 10
    then char 65 tt
    else if eqb d 11
    then char 66 tt
    else if eqb d 12
    then char 67 tt
    else if eqb d 13
    then char 68 tt
    else if eqb d 14
    then char 69 tt
    else char 70 tt

-- `f"{b:02X}"` of a byte
unfoldable pub hex_byte : ℕ → String
unfolding hex_char
hex_byte b = String.◌∷◌ (hex_char (b / 16)) (String.◌∷◌ (hex_char (b % 16)) String.[])

-- `(address >> (8 * i)) & 0xFF`
abbrev pub byte_at : ℕ → ℕ → ℕ
byte_at address i = (address / 2 ^ (8 * i)) % 256

-- `_mac`
unfoldable pub mac_of : ℕ → String
unfolding hex_byte join
mac_of a = join ":" (
    hex_byte (byte_at a 5)
    ∷ hex_byte (byte_at a 4)
    ∷ hex_byte (byte_at a 3)
    ∷ hex_byte (byte_at a 2)
    ∷ hex_byte (byte_at a 1)
    ∷ hex_byte (byte_at a 0)
    ∷ [])

-- The value of a digit in upper case.
abbrev pub hex_value : ℕ → Option ℕ
hex_value c =
    if leb b'0' c && leb c b'9'
    then some (c - 48)
    else if leb b'A' c && leb c b'F'
    then some (c - 55)
    else none

abbrev pub two_digits : Option ℕ → Option ℕ → Option ℕ
two_digits (some a) (some b) = some (a * 16 + b)
two_digits _ _ = none

abbrev pub then_byte : ℕ → Option ℕ → Option ℕ
then_byte acc none = none
then_byte acc (some b) = some (acc * 256 + b)

-- An address in the form of six bytes with colons, read from the left: `acc` is the number so far.
unfoldable pub read_mac : ℕ → String → Option ℕ
read_mac acc (String.◌∷◌ a (String.◌∷◌ b String.[])) =
    then_byte acc (two_digits (hex_value (code a)) (hex_value (code b)))
read_mac acc (String.◌∷◌ a (String.◌∷◌ b (String.◌∷◌ colon s))) =
    elim (then_byte acc (two_digits (hex_value (code a)) (hex_value (code b)))) [
      | none ↦ none
      | some n ↦ if eqb (code colon) b':' then read_mac n s else none
    ]
read_mac acc _ = none
