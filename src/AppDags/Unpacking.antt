-- ===== src/AppDags/Unpacking.antt =====
-- The files of an archive are written all together or not at all.
use nyc_pa_aws_gitops.Prelude.{
  ℕ, ◌≤◌, String, ◌≡◌, ◌⊎◌, inl, inr, refl, sym, ap, ◌∙◌, subst, Bool, true, false, not, ltb, List,
  [], ◌∷◌, arith, if◌then◌else◌, length, All, Bool-cases,
}
use nyc_pa_aws_gitops.Prelude.Results.{
  Result, ok, err, reject_if, >>=-eq-ok, reject_if-eq-ok, ok_inj,
}
use nyc_pa_aws_gitops.AppDags.{
  Kind, directory, regular, special, Member, Reason, max_files, max_file_bytes, is_dag_name,
  plain_name, check, check_kind, is_skipped, collect, checked_files, contents, written, unpack,
  bad_name, too_large, too_many,
}
use nyc_pa_aws_gitops.AppDags.Names.{strays, strays-is_dag_name}

-- The members of the archive that are to become files, each with the path for it.
unfoldable pub selected : List Member → List (String × Member)
selected [] = []
selected (m ∷ ms) = if is_skipped m then selected ms else (plain_name m.name, m) ∷ selected ms

-- A file that may be written: a regular one of at most 1 MiB, whose path has an allowed name.
pub record IsFine (f : String × Member) : Type 0 where
  pub is_regular : f.1.kind ≡ regular
  pub small : f.1.size ≤ max_file_bytes
  pub named : is_dag_name true f.0 ≡ true

not-true : (b : Bool) → not b ≡ false → b ≡ true
not-true b h = ground arith

at_most : (n k : ℕ) → ltb n k ≡ false → k ≤ n
at_most n k h = ground arith

pair_up :
    {f g : String × Member} {fs gs files : List (String × Member)}
    → f ≡ g
    → fs ≡ gs
    → ◌≡◌ {A = List (String × Member)} (g ∷ gs) files
    → ◌≡◌ {A = List (String × Member)} (f ∷ fs) files
pair_up u x e = cc

check_kind-IsFine :
    (m : Member) (k : Kind) (f : String × Member)
    → m.kind ≡ k
    → check_kind m k ≡ ok f
    → ((plain_name m.name, m) ≡ f) × IsFine (plain_name m.name, m)
unfolding check_kind
check_kind-IsFine m directory f e h = cc
check_kind-IsFine m special f e h = cc
check_kind-IsFine m regular f e h =
    let (x, a, h1) =
      >>=-eq-ok (reject_if (not (is_dag_name true (plain_name m.name))) (bad_name m.name)) _ h in
    let (y, b, h2) =
      >>=-eq-ok (reject_if (ltb max_file_bytes m.size) (too_large m.size m.name)) _ h1 in
    (
      ok_inj h2,
      record {
        is_regular = e;
        small = (at_most max_file_bytes m.size (reject_if-eq-ok (ltb max_file_bytes m.size) _ b));
        named = (not-true _ (reject_if-eq-ok (not (is_dag_name true (plain_name m.name))) _ a));
      },
    )

collect-selected :
    (ms : List Member) (files : List (String × Member))
    → collect ms ≡ ok files
    → (selected ms ≡ files) × All IsFine (selected ms)
unfolding collect selected
collect-selected [] files h = (ok_inj h, tt)
collect-selected (m ∷ ms) files h = elim (Bool-cases (is_skipped m)) [
  | inl e ↦ rw e (collect-selected ms files (rw e at h))
  | inr e ↦
      (let (f, a, h1) = >>=-eq-ok (check m) _ (rw e at h) in
        let (fs, b, h2) = >>=-eq-ok (collect ms) _ h1 in
        let (u, v) = check_kind-IsFine m m.kind f refl a in
        let (x, y) = collect-selected ms fs b in rw e (pair_up u x (ok_inj h2), (v, y)))
]

All-strays : (fs : List (String × Member)) → All IsFine fs → All (λ f. strays b'/' f.0 ≡ false) fs
All-strays [] h = tt
All-strays (f ∷ fs) (h, hs) = (strays-is_dag_name true b'/' f.0 refl h.named, All-strays fs hs)

checked_files-selected :
    (ms : List Member) (files : List (String × Member))
    → checked_files ms ≡ ok files
    → (selected ms ≡ files) × (length (selected ms) ≤ max_files) × All IsFine (selected ms)
unfolding checked_files
checked_files-selected ms files h =
    let (fs, a, h1) = >>=-eq-ok (collect ms) _ h in
    let (x, b, h2) =
      >>=-eq-ok (reject_if (ltb max_files (length fs)) (too_many (length fs))) _ h1 in
    let (e, y) = collect-selected ms fs a in
    (
      e ∙ ok_inj h2,
      subst (λ l. length l ≤ max_files) (sym e)
          (at_most max_files (length fs) (reject_if-eq-ok (ltb max_files (length fs)) _ b)),
      y,
    )

of_files :
    (ms : List Member) (m : Result Reason (List (String × Member)))
    → checked_files ms ≡ m
    → (written m ≡ ([], 1))
      ⊎ ((written m ≡ (contents (selected ms), 0))
          × (length (selected ms) ≤ max_files)
          × All IsFine (selected ms)
          × All (λ f. strays b'/' f.0 ≡ false) (selected ms))
of_files ms (err e) h = inl refl
of_files ms (ok files) h =
    let (e, n, y) = checked_files-selected ms files h in
    inr (ap (λ l. (contents l, 0)) (sym e), n, y, All-strays (selected ms) y)

-- An archive is written whole or not at all, and then the exit code is 1. When it is written, its
-- files are the members that are not skipped, in order: at most 200, each a regular file of at most
-- 1 MiB whose path stays in the folder.
pub unpack-cases :
    (ms : List Member)
    → (unpack ms ≡ ([], 1))
      ⊎ ((unpack ms ≡ (contents (selected ms), 0))
          × (length (selected ms) ≤ max_files)
          × All IsFine (selected ms)
          × All (λ f. strays b'/' f.0 ≡ false) (selected ms))
unfolding unpack
unpack-cases ms = of_files ms (checked_files ms) refl

not_over : (n k : ℕ) → k ≤ n → ltb n k ≡ false
not_over n k h = ground arith

check_kind-fine :
    (m : Member) → IsFine (plain_name m.name, m) → check_kind m m.kind ≡ ok (plain_name m.name, m)
unfolding check_kind
check_kind-fine m h = rw (h.is_regular, h.named, not_over max_file_bytes m.size h.small) refl

IsFine-parts :
    (m : Member) (ms : List Member)
    → All IsFine ((plain_name m.name, m) ∷ selected ms)
    → IsFine (plain_name m.name, m) × All IsFine (selected ms)
IsFine-parts m ms h = h

collect-fine : (ms : List Member) → All IsFine (selected ms) → collect ms ≡ ok (selected ms)
unfolding collect selected
collect-fine [] h = refl
collect-fine (m ∷ ms) h = elim (Bool-cases (is_skipped m)) [
  | inl e ↦ rw e (collect-fine ms (rw e at h))
  | inr e ↦
      (let (x, y) = IsFine-parts m ms (rw e at h) in
        rw (e, check_kind-fine m x, collect-fine ms y) refl)
]

-- An archive with at most 200 files, each of them a regular one of at most 1 MiB with an allowed name,
-- is written whole, whatever directories it lists besides.
pub unpack-fine :
    (ms : List Member)
    → All IsFine (selected ms)
    → length (selected ms) ≤ max_files
    → unpack ms ≡ (contents (selected ms), 0)
unfolding unpack checked_files
unpack-fine ms h n = rw (collect-fine ms h, not_over max_files (length (selected ms)) n) refl
