-- ===== src/Prelude/Python.antt =====
-- Parts of Python's runtime that the model leaves open, and what the code builds on them.
use Prim.Native.Nat.{ℕ}
use Prim.Native.String.{String}
use mathlib.Core.Bool.{Bool, true, false}
use nyc_pa_aws_gitops.Prelude.Tests.{ltb, if◌then◌else◌}
use nyc_pa_aws_gitops.Prelude.Texts.{is_digit}
use nyc_pa_aws_gitops.Prelude.Json.{Json, null, bool, num, str, arr, obj}

-- Which code points from 128 on `\d` matches, and the text that `str` makes of a list or a dict.
pub record Python : Type 0 where
  pub wide_digit : ℕ → Bool
  pub container_text : Json → String

-- `\d`
abbrev pub is_decimal : Python → ℕ → Bool
is_decimal py c = if ltb c 128 then is_digit c else py.wide_digit c

-- `str(v)`, `f"{v}"`
unfoldable pub text_of : Python → Json → String
text_of py null = "None"
text_of py (bool true) = "True"
text_of py (bool false) = "False"
text_of py (num t) = t
text_of py (str t) = t
text_of py (arr xs) = py.container_text (arr xs)
text_of py (obj fs) = py.container_text (obj fs)
