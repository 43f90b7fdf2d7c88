-- ===== src/AppDags/Tests.antt =====
-- Runs on sample archives.
use nyc_pa_aws_gitops.Prelude.{◌≤◌, ◌≡◌, ◌⊎◌, refl, true, false, List, [], ◌∷◌, length, All, arith}
use nyc_pa_aws_gitops.AppDags.{
  Member, directory, regular, special, max_files, is_dag_name, contents, unpack,
}
use nyc_pa_aws_gitops.AppDags.Names.{strays, strays-is_dag_name}
use nyc_pa_aws_gitops.AppDags.Unpacking.{selected, IsFine, unpack-cases, unpack-fine}

abbrev two_members : List Member
two_members =
    record { name = "./jobs"; kind = directory; size = 0; content = "" }
    ∷ record { name = "./jobs/daily.py"; kind = regular; size = 4; content = "pass" }
    ∷ []

strays-is_dag_name_example : strays b'/' "jobs/daily.py" ≡ false
unfolding is_dag_name
strays-is_dag_name_example = strays-is_dag_name true b'/' "jobs/daily.py" refl refl

unpack-cases_example :
    (unpack two_members ≡ ([], 1))
    ⊎ ((unpack two_members ≡ (contents (selected two_members), 0))
        × (length (selected two_members) ≤ max_files)
        × All IsFine (selected two_members)
        × All (λ f. strays b'/' f.0 ≡ false) (selected two_members))
unpack-cases_example = unpack-cases two_members

two_members-IsFine : All IsFine (selected two_members)
unfolding selected is_dag_name nyc_pa_aws_gitops.AppDags.is_skipped
two_members-IsFine = (record { is_regular = refl; small = (ground arith); named = refl }, tt)

two_members_few : length (selected two_members) ≤ max_files
unfolding selected
two_members_few = ground arith

unpack-fine_example : unpack two_members ≡ (contents (selected two_members), 0)
unpack-fine_example = unpack-fine two_members two_members-IsFine two_members_few

both_written : unpack two_members ≡ (("jobs/daily.py", "pass") ∷ [], 0)
unfolding unpack
both_written = refl

parent_refused : is_dag_name true "../daily.py" ≡ false
unfolding is_dag_name
parent_refused = refl
