-- ===== src/AppDags.antt =====
-- scripts/hub/app-dags.py: an app's archive of Airflow DAGs is checked, and its files are written only
-- if every member passes.
pub mod Names
pub mod Unpacking
mod Tests
use Prim.Native.Char.{code}
use nyc_pa_aws_gitops.Prelude.{
  ℕ, String, ◌<>◌, Bool, true, false, not, ◌&&◌, ◌||◌, Option, none, some, List, [], ◌∷◌, ◌==◌, ltb,
  eqb, if◌then◌else◌, length, is_lower, is_upper, is_digit, strip_prefix,
}
use nyc_pa_aws_gitops.Prelude.Results.{Result, ok, err, ◌>>=◌, ◌>>◌, reject_if}

-- What a member of the archive is.
pub data Kind : Type 0 where
  directory regular special : Kind

pub record Member : Type 0 where
  pub name : String
  pub kind : Kind
  pub size : ℕ
  pub content : String

pub data Reason : Type 0 where
  not_regular bad_name : String → Reason
  too_large : ℕ → String → Reason
  too_many : ℕ → Reason

abbrev pub max_files : ℕ
max_files = 200

abbrev pub max_file_bytes : ℕ
max_file_bytes = 1048576

-- `[A-Za-z0-9_]`
abbrev pub is_word : ℕ → Bool
is_word c = is_lower c || (is_upper c || (is_digit c || eqb c b'_'))

-- `NAME.fullmatch`, where `first` says that a part begins: a part begins with a word character, and
-- the first full stop begins the ending.
unfoldable pub is_dag_name : Bool → String → Bool
is_dag_name first String.[] = false
is_dag_name first (String.◌∷◌ c s) =
    let rest = is_dag_name false s in
    let part = is_dag_name true s in
    if is_word (code c) || (not first && eqb (code c) b'-')
    then rest
    else if not first && eqb (code c) b'/'
    then part
    else not first && (eqb (code c) b'.' && s == "py")

abbrev plain : String → Option String → String
plain name none = name
plain name (some rest) = rest

-- `m.name[2:] if m.name.startswith("./") else m.name`
unfoldable pub plain_name : String → String
unfolding strip_prefix
plain_name name = plain name (strip_prefix "./" name)

-- The checks of a member that is not skipped.
unfoldable pub check_kind : Member → Kind → Result Reason (String × Member)
unfolding is_dag_name plain_name
check_kind m regular = do
  reject_if (not (is_dag_name true (plain_name m.name))) (bad_name m.name)
  reject_if (ltb max_file_bytes m.size) (too_large m.size m.name)
  ok (plain_name m.name, m)
check_kind m k = err (not_regular m.name)

abbrev pub check : Member → Result Reason (String × Member)
check m = check_kind m m.kind

abbrev pub is_directory : Kind → Bool
is_directory directory = true
is_directory _ = false

-- `name in ("", ".")` or `m.isdir()`
unfoldable pub is_skipped : Member → Bool
unfolding plain_name
is_skipped m = plain_name m.name == "" || (plain_name m.name == "." || is_directory m.kind)

-- The loop over the members: the list `files`.
unfoldable pub collect : List Member → Result Reason (List (String × Member))
unfolding check_kind is_skipped
collect [] = ok []
collect (m ∷ ms) =
    let rest = collect ms in if is_skipped m then rest else (do f ← check m; fs ← rest; ok (f ∷ fs))

-- The files to write, if there are not too many.
unfoldable pub checked_files : List Member → Result Reason (List (String × Member))
unfolding collect
checked_files ms = do
  files ← collect ms
  reject_if (ltb max_files (length files)) (too_many (length files))
  ok files

-- `open(path, "wb")` for each of them: the names and the contents
unfoldable pub contents : List (String × Member) → List (String × String)
contents [] = []
contents ((name, m) ∷ files) = (name, m.content) ∷ contents files

abbrev pub written : Result Reason (List (String × Member)) → List (String × String) × ℕ
written (err e) = ([], 1)
written (ok files) = (contents files, 0)

-- `main`: the files that it writes, and the exit code
unfoldable pub unpack : List Member → List (String × String) × ℕ
unfolding checked_files contents
unpack ms = written (checked_files ms)
