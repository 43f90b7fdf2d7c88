-- ===== src/MemoryCheck/Sizes.antt =====
-- What `text_size` reads is what the text writes.
use Prim.Native.Char.{char}
use text.Mathlib.TextEquality.{Char-path}
use text.Mathlib.TextLemmas.{cons-append, nil-append}
use nyc_pa_aws_gitops.Prelude.{
  ℕ, zero, suc, ◌≤◌, code, String, ◌<>◌, ◌≡◌, ◌⊎◌, inl, inr, refl, sym, subst, ap, ◌∙◌, true, ◌||◌,
  Option, none, some, ◌==◌, eq_iff, eqb, arith, is_space, lstrip, all_chars, Bool-cases, Char,
}
use nyc_pa_aws_gitops.Prelude.Letters.{lower}
use nyc_pa_aws_gitops.Prelude.Results.{ok, >>=-eq-ok, ok_inj}
use nyc_pa_aws_gitops.MemoryCheck.{
  Input, Size, Step, unit_of, digits_from, letters_from, scaled, with_unit, behind_number,
  behind_point, behind_digits, text_size,
}
use nyc_pa_aws_gitops.MemoryCheck.Written.{
  value, many, is_letter, UnitOf, bytes, kilo, mega, giga, Ending, unit, Written, whole, decimal,
  lstrip_split, lstrip_blank, letters_split, digits_from-Read,
}

either : (u a b : String) → u == a || u == b ≡ true → (u ≡ a) ⊎ (u ≡ b)
either u a b h = elim (Bool-cases (u == a)) [
  | inl e ↦ inl ((eq_iff u a).0 e)
  | inr e ↦ inr ((eq_iff u b).0 (rw e at h))
]

some_inj : {A : Type 0} {x y : A} → some x ≡ some y → x ≡ y
some_inj h = cc

none_some : {A B : Type 0} {x : A} → none ≡ some x → B
none_some h = cc

of_unit_of : (u : String) (n : ℕ) → unit_of u ≡ some n → UnitOf u n
of_unit_of u n h = elim (Bool-cases (u == "" || u == "b")) [
  | inl e ↦ subst (UnitOf u) (some_inj (rw e at h)) (bytes (either u "" "b" e))
  | inr e ↦ elim (Bool-cases (u == "k" || u == "kb")) [
    | inl f ↦ subst (UnitOf u) (some_inj (rw (e, f) at h)) (kilo (either u "k" "kb" f))
    | inr f ↦ elim (Bool-cases (u == "m" || u == "mb")) [
      | inl g ↦ subst (UnitOf u) (some_inj (rw (e, f, g) at h)) (mega (either u "m" "mb" g))
      | inr g ↦ elim (Bool-cases (u == "g" || u == "gb")) [
        | inl j ↦ subst (UnitOf u) (some_inj (rw (e, f, g, j) at h)) (giga (either u "g" "gb" j))
        | inr j ↦ none_some (rw (e, f, g, j) at h)
      ]
    ]
  ]
]

-- The size `z` is that of a text with the number of `n` and `k`.
abbrev Sized : Input → ℕ → ℕ → String → Size → Type 0
Sized i n k s z = (u : ℕ) × Ending s u × (i.scale n k u ≡ ok z)

no_size : {A : Type 0} {z : Size} → ◌≡◌ {A = Step (Option Size)} (ok none) (ok (some z)) → A
no_size h = none_some (ok_inj h)

module _ (i : Input) where
  scaled-Sized :
      (n k : ℕ) (o : Option ℕ) (z : Size)
      → scaled i n k o ≡ ok (some z)
      → (u : ℕ) × (o ≡ some u) × (i.scale n k u ≡ ok z)
  scaled-Sized n k none z h = no_size h
  scaled-Sized n k (some u) z h =
      let (x, e, f) = >>=-eq-ok (i.scale n k u) _ h in
      (u, refl, e ∙ ap (λ y. ok y) (some_inj (ok_inj f)))

  with_unit-Sized :
      (n k : ℕ) (a : String) (p : String × String) (z : Size)
      → all_chars is_space a ≡ true
      → all_chars is_letter p.0 ≡ true
      → with_unit i n k p ≡ ok (some z)
      → Sized i n k (a <> (p.0 <> p.1)) z
  with_unit-Sized n k a (letters, rest) z ha hl h = elim (Bool-cases (lstrip rest == "")) [
    | inl e ↦
        let (u, known, f) = scaled-Sized n k (unit_of (lower letters)) z (rw e at h) in
        (
          u,
          unit a letters rest u ha hl (lstrip_blank rest ((eq_iff (lstrip rest) "").0 e))
              (of_unit_of (lower letters) u known),
          f,
        )
    | inr e ↦ no_size (rw e at h)
  ]

  behind_number-Sized :
      (n k : ℕ) (s : String) (z : Size) → behind_number i n k s ≡ ok (some z) → Sized i n k s z
  behind_number-Sized n k s z h =
      let (a, ha, e) = lstrip_split s in
      let (hl, f) = letters_split (lstrip s) in
      let whole_text : s ≡ a <> ((letters_from (lstrip s)).0 <> (letters_from (lstrip s)).1) =
        e ∙ ap (λ t. a <> t) f in
      subst (λ t. Sized i n k t z) (sym whole_text)
        (with_unit-Sized n k a (letters_from (lstrip s)) z ha hl h)

  behind_point-Sized :
      (r : ℕ × ℕ × String) (z : Size) → behind_point i r ≡ ok (some z) → Sized i r.1 r.0 r.2 z
  behind_point-Sized (zero, m, s) z h = no_size h
  behind_point-Sized (suc k, m, s) z h = behind_number-Sized m (suc k) s z h

dotted : (c : Char) (s : String) → eqb (code c) b'.' ≡ true → String.◌∷◌ c s ≡ "." <> s
dotted c s h =
    let same : code c ≡ b'.' = ground arith in
    ap (λ d. String.◌∷◌ d s) (Char-path c (char 46 tt) same)
    ∙ sym (rw (cons-append, nil-append) refl)

module _ (i : Input) where
  -- What stands behind the first digits `r`: the unit, or a point with more digits and the unit.
  abbrev Behind : ℕ × ℕ × String → Size → Type 0
  Behind r z =
      (1 ≤ r.0)
      × (Sized i r.1 0 r.2 z
          ⊎ ((t : String) × (r.2 ≡ "." <> t)
              × (behind_point i (digits_from 0 r.1 t) ≡ ok (some z))))

  behind_digits-Behind :
      (r : ℕ × ℕ × String) (z : Size) → behind_digits i r ≡ ok (some z) → Behind r z
  behind_digits-Behind (zero, n, s) z h = no_size h
  behind_digits-Behind (suc k, n, String.[]) z h =
      (omega arith, inl (behind_number-Sized i n 0 String.[] z h))
  behind_digits-Behind (suc k, n, String.◌∷◌ c s) z h = elim (Bool-cases (eqb (code c) b'.')) [
    | inl e ↦ (omega arith, inr (s, dotted c s e, rw e at h))
    | inr e ↦ (omega arith, inl (behind_number-Sized i n 0 (String.◌∷◌ c s) z (rw e at h)))
  ]

  point_digits : (r : ℕ × ℕ × String) (z : Size) → behind_point i r ≡ ok (some z) → 1 ≤ r.0
  point_digits (zero, m, s) z h = no_size h
  point_digits (suc k, m, s) z h = omega arith

  -- The text `s` writes a size, which is `z`.
  abbrev pub IsWritten : String → Size → Type 0
  IsWritten s z = (n : ℕ) × (k : ℕ) × (u : ℕ) × Written s n k u × (i.scale n k u ≡ ok z)

  pub text_size-IsWritten : (s : String) (z : Size) → text_size i s ≡ ok (some z) → IsWritten s z
  unfolding text_size
  text_size-IsWritten s z h =
      let (a, ha, e) = lstrip_split s in
      let r = digits_from 0 0 (lstrip s) in
      let d = digits_from-Read 0 0 (lstrip s) in
      let (some_digits, rest) = behind_digits-Behind r z h in
      let there : 1 ≤ many d.digits = omega (arith, d.read, some_digits) in
      let front : s ≡ a <> (d.digits <> r.2) = e ∙ ap (λ t. a <> t) d.split in
      elim rest [
        | inl (u, ending, f) ↦ (
          value 0 d.digits,
          0,
          u,
          subst (λ t. Written t (value 0 d.digits) 0 u) (sym front)
              (whole a d.digits r.2 u ha d.all_digits there ending),
          subst (λ n. i.scale n 0 u ≡ ok z) d.number f,
        )
        | inr (t, dot, g) ↦
            let q = digits_from 0 r.1 t in
            let b = digits_from-Read 0 r.1 t in
            let (u, ending, f) = behind_point-Sized i q z g in
            let behind : 1 ≤ many b.digits = omega (arith, b.read, point_digits q z g) in
            let text : s ≡ a <> (d.digits <> ("." <> (b.digits <> q.2))) =
              front ∙ ap (λ x. a <> (d.digits <> x)) (dot ∙ ap (λ x. "." <> x) b.split) in
            let count : q.0 ≡ many b.digits = omega (arith, b.read) in
            let number : q.1 ≡ value (value 0 d.digits) b.digits =
              b.number ∙ ap (λ n. value n b.digits) d.number in
            (
              value (value 0 d.digits) b.digits,
              many b.digits,
              u,
              subst (λ x. Written x (value (value 0 d.digits) b.digits) (many b.digits) u)
                  (sym text)
                  (decimal a d.digits b.digits q.2 u ha d.all_digits there b.all_digits behind
                    ending),
              subst (λ n. i.scale n (many b.digits) u ≡ ok z) number
                  (subst (λ k. i.scale q.1 k u ≡ ok z) count f),
            )
      ]
