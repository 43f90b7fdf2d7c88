-- ===== src/HomeMcp/Updates/Tags/Newest.antt =====
-- `newest_same_shape` finds the newest tag.
use nyc_pa_aws_gitops.Prelude.{
  ℕ, String, ◌≡◌, inl, inr, refl, Bool, true, false, ◌&&◌, Option, none, some, List, [], ◌∷◌, arith,
  contains, eq_iff, Bool-cases, All,
}
use nyc_pa_aws_gitops.HomeMcp.Updates.Tags.{
  Tag, parse_tag, is_prerelease, lt_nums, fits, nums_of, newest_from, newest_same_shape,
}

lt_nums_trans : (a b c : List ℕ) → lt_nums a b ≡ true → lt_nums b c ≡ true → lt_nums a c ≡ true
unfolding lt_nums
lt_nums_trans [] [] c h k = cc
lt_nums_trans [] (y ∷ b) [] h k = cc
lt_nums_trans [] (y ∷ b) (z ∷ c) h k = refl
lt_nums_trans (x ∷ a) [] c h k = cc
lt_nums_trans (x ∷ a) (y ∷ b) [] h k = cc
lt_nums_trans (x ∷ a) (y ∷ b) (z ∷ c) h k = ground (arith, lt_nums_trans a b c)

lt_nums_irrefl : (a : List ℕ) → lt_nums a a ≡ false
unfolding lt_nums
lt_nums_irrefl [] = refl
lt_nums_irrefl (x ∷ a) = ground (arith, lt_nums_irrefl a)

-- The tag `t` has the shape of `cur`, is no pre-release, and has numbers above `nums`.
abbrev pub beats : Tag → List ℕ → String → Bool
beats cur nums t = fits cur (parse_tag t) && lt_nums nums (nums_of (parse_tag t))

abbrev pub NoneBeats : Tag → List ℕ → List String → Type 0
NoneBeats cur nums tags = All (λ t. beats cur nums t ≡ false) tags

-- Numbers above `nums` are beaten by nothing that does not beat `nums`.
beats_above :
    (cur : Tag) (nums m : List ℕ) (t : String)
    → lt_nums nums m ≡ true
    → beats cur nums t ≡ false
    → beats cur m t ≡ false
beats_above cur nums m t h k = ground (arith, lt_nums_trans nums m (nums_of (parse_tag t)))

not_below :
    (cur : Tag) (m : List ℕ) (t : String)
    → lt_nums (nums_of (parse_tag t)) m ≡ true
    → beats cur m t ≡ false
not_below cur m t h = ground (arith, lt_nums_trans m (nums_of (parse_tag t)) m, lt_nums_irrefl m)

not_itself : (cur : Tag) (t : String) → beats cur (nums_of (parse_tag t)) t ≡ false
not_itself cur t = ground (arith, lt_nums_irrefl (nums_of (parse_tag t)))

-- How the loop ends: with the best tag that it began with, which no tag beats; or with one of the
-- tags that beats it, and that no tag beats.
pub data Ends (cur : Tag) (best : Option String) (nums : List ℕ) (tags : List String)
    (r : Option String) : Type 0 where
  kept : r ≡ best → NoneBeats cur nums tags → Ends cur best nums tags r
  improved :
      (t : String)
      → r ≡ some t
      → contains tags t ≡ true
      → beats cur nums t ≡ true
      → NoneBeats cur (nums_of (parse_tag t)) tags
      → Ends cur best nums tags r

both_true : (a b : Bool) → a && b ≡ true → (a ≡ true) × (b ≡ true)
both_true a b h = (ground arith, ground arith)

contains_later :
    (x t : String) (tags : List String) → contains tags t ≡ true → contains (x ∷ tags) t ≡ true
contains_later x t tags h = ground arith

contains_self : (t : String) (tags : List String) → contains (t ∷ tags) t ≡ true
contains_self t tags = ground (arith, eq_iff t t)

after_better :
    (cur : Tag) (best : Option String) (nums : List ℕ) (t : String) (tags : List String)
    {r : Option String}
    → beats cur nums t ≡ true
    → Ends cur (some t) (nums_of (parse_tag t)) tags r
    → Ends cur best nums (t ∷ tags) r
after_better cur best nums t tags b (kept e rest) =
    improved t e (contains_self t tags) b (not_itself cur t, rest)
after_better cur best nums t tags b (improved u e m c rest) =
    let (f, l) = both_true (fits cur (parse_tag t)) (lt_nums nums (nums_of (parse_tag t))) b in
    let (g, k) =
      both_true (fits cur (parse_tag u)) (lt_nums (nums_of (parse_tag t)) (nums_of (parse_tag u)))
        c in
    improved u e (contains_later t u tags m)
      (ground (arith, lt_nums_trans nums (nums_of (parse_tag t)) (nums_of (parse_tag u))))
      ((not_below cur (nums_of (parse_tag u)) t k, rest))

after_same :
    (cur : Tag) (best : Option String) (nums : List ℕ) (t : String) (tags : List String)
    {r : Option String}
    → beats cur nums t ≡ false
    → Ends cur best nums tags r
    → Ends cur best nums (t ∷ tags) r
after_same cur best nums t tags b (kept e rest) = kept e (b, rest)
after_same cur best nums t tags b (improved u e m c rest) =
    let (g, k) = both_true (fits cur (parse_tag u)) (lt_nums nums (nums_of (parse_tag u))) c in
    improved u e (contains_later t u tags m) c
      (beats_above cur nums (nums_of (parse_tag u)) t k b, rest)

newest_from-Ends :
    (cur : Tag) (best : Option String) (nums : List ℕ) (tags : List String)
    → Ends cur best nums tags (newest_from cur best nums tags)
unfolding newest_from
newest_from-Ends cur best nums [] = kept refl tt
newest_from-Ends cur best nums (t ∷ tags) = elim (Bool-cases (beats cur nums t)) [
  | inl b ↦ rw b (
      after_better cur best nums t tags b
        (newest_from-Ends cur (some t) (nums_of (parse_tag t)) tags))
  | inr b ↦ rw b (after_same cur best nums t tags b (newest_from-Ends cur best nums tags))
]

-- What `newest_same_shape` answers for a tag `current` that it can read and that is no pre-release:
-- none, and then no tag is newer; or one of the tags that is newer, and then none is newer than it.
-- Newer means: of the same prefix, suffix and count of numbers, no pre-release, and above in the order
-- of tuples.
pub newest_same_shape-Ends :
    (current : String) (cur : Tag) (tags : List String)
    → parse_tag current ≡ some cur
    → is_prerelease cur.suffix ≡ false
    → Ends cur none cur.nums tags (newest_same_shape current tags)
unfolding newest_same_shape
newest_same_shape-Ends current cur tags e f = rw (e, f) (newest_from-Ends cur none cur.nums tags)
