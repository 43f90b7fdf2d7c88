-- ===== src/AppDags/Names.antt =====
-- What the pattern for DAG names rules out.
use Prim.Native.Char.{Char, code}
use nyc_pa_aws_gitops.Prelude.{
  ℕ, String, ◌≡◌, refl, sym, subst, inl, inr, eqb_iff, Bool, true, false, ◌&&◌, ◌||◌, ◌==◌, eqb,
  eq_iff, arith, Bool-cases,
}
use nyc_pa_aws_gitops.AppDags.{is_word, is_dag_name}

-- Behind the character `before`, the path `s` has an empty part, a part that begins with a full
-- stop, or two full stops in a row. With a slash for `before`, this holds of an absolute path and of
-- one with a part `.` or `..`.
unfoldable pub strays : ℕ → String → Bool
strays before String.[] = false
strays before (String.◌∷◌ c s) =
    let rest = strays (code c) s in
    eqb before b'/' && (eqb (code c) b'/' || eqb (code c) b'.')
    || (eqb before b'.' && eqb (code c) b'.' || rest)

word_plain : (c : ℕ) → is_word c ≡ true → (eqb c b'/' ≡ false) × (eqb c b'.' ≡ false)
word_plain c h = (ground arith, ground arith)

dash_plain : (c : ℕ) → eqb c b'-' ≡ true → (eqb c b'/' ≡ false) × (eqb c b'.' ≡ false)
dash_plain c h = (ground arith, ground arith)

-- The character before fits to where the pattern is.
abbrev Fits : Bool → ℕ → Type 0
Fits true before = eqb before b'/' ≡ true
Fits false before = (eqb before b'/' ≡ false) × (eqb before b'.' ≡ false)

strays_py : strays b'.' "py" ≡ false
unfolding strays
strays_py = refl

absurd_false {ℓ} : {A : Type ℓ} → false ≡ true → A
absurd_false h = cc

eqb_eq : (a b : ℕ) → eqb a b ≡ true → a ≡ b
eqb_eq a b h = (eqb_iff a b).0 h

ending :
    (c : Char) (s : String)
    → eqb (code c) b'.' ≡ true
    → (s == "py") ≡ true
    → strays (code c) s ≡ false
ending c s e f =
    subst (λ n. strays n s ≡ false) (sym (eqb_eq (code c) b'.' e))
      (subst (λ t. strays b'.' t ≡ false) (sym ((eq_iff s "py").0 f)) strays_py)

step :
    (first : Bool) (before : ℕ) (c : Char) (s : String)
    → Fits first before
    → strays (code c) s ≡ false
    → first && (eqb (code c) b'/' || eqb (code c) b'.') ≡ false
    → strays before (String.◌∷◌ c s) ≡ false
unfolding strays
step true before c s e f g = ground arith
step false before c s (e, e') f g = ground arith

-- A name that the pattern allows has no part that is empty or begins with a full stop, and no two
-- full stops in a row, where the character before the name fits to where the pattern is: a slash at the
-- start of a part.
pub strays-is_dag_name :
    (first : Bool) (before : ℕ) (s : String)
    → Fits first before
    → is_dag_name first s ≡ true
    → strays before s ≡ false
unfolding is_dag_name
strays-is_dag_name first before String.[] e h = cc
strays-is_dag_name true before (String.◌∷◌ c s) e h = elim (Bool-cases (is_word (code c))) [
  | inl w ↦
      (let (a, b) = word_plain (code c) w in
        step true before c s e (strays-is_dag_name false (code c) s (a, b) (rw w at h))
          (rw (a, b) refl))
  | inr w ↦ absurd_false (rw w at h)
]
strays-is_dag_name false before (String.◌∷◌ c s) e h = elim (Bool-cases (is_word (code c))) [
  | inl w ↦
      step false before c s e
        (strays-is_dag_name false (code c) s (word_plain (code c) w) (rw w at h)) refl
  | inr w ↦ elim (Bool-cases (eqb (code c) b'-')) [
    | inl d ↦
        step false before c s e
          (strays-is_dag_name false (code c) s (dash_plain (code c) d) (rw (w, d) at h)) refl
    | inr d ↦ elim (Bool-cases (eqb (code c) b'/')) [
      | inl x ↦
          step false before c s e (strays-is_dag_name true (code c) s x (rw (w, d, x) at h)) refl
      | inr x ↦ elim (Bool-cases (eqb (code c) b'.')) [
        | inl y ↦ step false before c s e (ending c s y (rw (w, d, x, y) at h)) refl
        | inr y ↦ absurd_false (rw (w, d, x, y) at h)
      ]
    ]
  ]
]
