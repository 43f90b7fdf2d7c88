-- ===== src/Prelude/Letters.antt =====
-- Python's `str.upper` and `str.lower` on texts in ASCII.
use Prim.Native.Char.{char}
use nyc_pa_aws_gitops.Prelude.{ℕ, Char, code, String, ◌≡◌, refl, eqb, if◌then◌else◌}

unfoldable pub upper_char : Char → ℕ → Char
upper_char c n =
    if eqb n 97
    then char 65 tt
    else if eqb n 98
    then char 66 tt
    else if eqb n 99
    then char 67 tt
    else if eqb n 100
    then char 68 tt
    else if eqb n 101
    then char 69 tt
    else if eqb n 102
    then char 70 tt
    else if eqb n 103
    then char 71 tt
    else if eqb n 104
    then char 72 tt
    else if eqb n 105
    then char 73 tt
    else if eqb n 106
    then char 74 tt
    else if eqb n 107
    then char 75 tt
    else if eqb n 108
    then char 76 tt
    else if eqb n 109
    then char 77 tt
    else if eqb n 110
    then char 78 tt
    else if eqb n 111
    then char 79 tt
    else if eqb n 112
    then char 80 tt
    else if eqb n 113
    then char 81 tt
    else if eqb n 114
    then char 82 tt
    else if eqb n 115
    then char 83 tt
    else if eqb n 116
    then char 84 tt
    else if eqb n 117
    then char 85 tt
    else if eqb n 118
    then char 86 tt
    else if eqb n 119
    then char 87 tt
    else if eqb n 120
    then char 88 tt
    else if eqb n 121
    then char 89 tt
    else if eqb n 122
    then char 90 tt
    else c

unfoldable pub lower_char : Char → ℕ → Char
lower_char c n =
    if eqb n 65
    then char 97 tt
    else if eqb n 66
    then char 98 tt
    else if eqb n 67
    then char 99 tt
    else if eqb n 68
    then char 100 tt
    else if eqb n 69
    then char 101 tt
    else if eqb n 70
    then char 102 tt
    else if eqb n 71
    then char 103 tt
    else if eqb n 72
    then char 104 tt
    else if eqb n 73
    then char 105 tt
    else if eqb n 74
    then char 106 tt
    else if eqb n 75
    then char 107 tt
    else if eqb n 76
    then char 108 tt
    else if eqb n 77
    then char 109 tt
    else if eqb n 78
    then char 110 tt
    else if eqb n 79
    then char 111 tt
    else if eqb n 80
    then char 112 tt
    else if eqb n 81
    then char 113 tt
    else if eqb n 82
    then char 114 tt
    else if eqb n 83
    then char 115 tt
    else if eqb n 84
    then char 116 tt
    else if eqb n 85
    then char 117 tt
    else if eqb n 86
    then char 118 tt
    else if eqb n 87
    then char 119 tt
    else if eqb n 88
    then char 120 tt
    else if eqb n 89
    then char 121 tt
    else if eqb n 90
    then char 122 tt
    else c

-- `s.upper()`
unfoldable pub upper : String → String
unfolding upper_char
upper String.[] = String.[]
upper (String.◌∷◌ c s) = String.◌∷◌ (upper_char c (code c)) (upper s)

-- `s.lower()`
unfoldable pub lower : String → String
unfolding lower_char
lower String.[] = String.[]
lower (String.◌∷◌ c s) = String.◌∷◌ (lower_char c (code c)) (lower s)

upper_example : upper "c0:Ff:ee:z9" ≡ "C0:FF:EE:Z9"
unfolding upper
upper_example = refl

lower_example : lower "Platform Repo" ≡ "platform repo"
unfolding lower
lower_example = refl
