-- ===== src/Tests/MergeRequests.antt =====
-- Runs of the delivery to GitLab, with a server in memory. The branch of the change appears between
-- the probe and the commit, and the merge request exists already.
use cloud_sre_agent.Prelude.{
  ℕ, ◌≡◌, ◌≢◌, refl, ◌&&◌, [], ◌∷◌, Option, none, some, ok, err, Text, codes, trim_space, text_eq,
  text_eq_iff, contains, to_lower, if◌then◌else◌, arith,
}
use cloud_sre_agent.Domain.Levels.{severity_error}
use cloud_sre_agent.Scm.{Change, Ref}
use cloud_sre_agent.Scm.Naming.{branch_name}
use cloud_sre_agent.Scm.GitLab.{
  ApiError, CommitOptions, Api, Target, is_not_found, is_branch_exists, is_merge_request_exists,
}
use cloud_sre_agent.Scm.GitLab.Deliver.{deliver}
use cloud_sre_agent.Scm.GitLab.Laws.{IsServer, deliver-commit_file}
use cloud_sre_agent.Scm.GitLab.Branches.{deliver-branch_name}

record Server : Type 0 where
  heads : Text → Text
  files : Text → Text → Option Text

abbrev refused : ℕ → ApiError
refused code = record { status = some code; message = codes "Branch already exists" }

abbrev commit : CommitOptions → Server → Server
commit o w = record {
  heads = λ x. if text_eq x o.branch then codes "new" else w.heads x;
  files =
      λ b p. if text_eq b o.branch && text_eq p o.file_path then some o.content else w.files b p;
}

abbrev server : Api Server
server = record {
  get_branch =
      λ b w. if text_eq b (codes "main") then (ok (w.heads b), w) else (err (refused 404), w);
  get_file = λ p b w. (err (refused 404), w);
  create_commit = λ o w. if o.force then (ok tt, commit o w) else (err (refused 400), w);
  create_merge_request = λ mr w. (err (refused 409), w);
  list_merge_requests = λ s b t w. (ok (record { iid = 3; web_url = codes "mr" } ∷ []), w);
}

abbrev head : Server → Text → Text
head w = w.heads

abbrev file : Server → Text → Text → Option Text
file w = w.files

server-IsServer : IsServer server head file
server-IsServer = record {
  create_commit-content = λ o w h.
      ground (arith, h, text_eq_iff o.branch o.branch, text_eq_iff o.file_path o.file_path);
  create_merge_request-file = λ mr w b p. refl;
  list_merge_requests-file = λ s b t w c p. refl;
  get_branch-head = λ b w x. ground arith;
  get_file-head = λ p b w x. refl;
  create_merge_request-head = λ mr w x. refl;
  list_merge_requests-head = λ s b t w x. refl;
  create_commit-head = λ o w x n. ground (arith, n, text_eq_iff x o.branch);
}

abbrev target : Target Server
target = record { client = server; base_branch = codes "main" }

abbrev before : Server
before = record { heads = λ b. codes "c0"; files = λ b p. none }

abbrev change : Change
change = record {
  file_path = codes "db/pool.go";
  patch = codes "package db";
  description = codes "raise the limit";
  severity = severity_error;
}

delivered_ref : (ref : Ref) × ((deliver target change before).0 ≡ ok ref)
unfolding deliver trim_space text_eq branch_name is_not_found is_branch_exists
    is_merge_request_exists contains to_lower
delivered_ref = (_, refl)

deliver-commit_file_example :
    file (deliver target change before).1 (branch_name change) (codes "db/pool.go")
    ≡ some (codes "package db")
deliver-commit_file_example =
    deliver-commit_file target head file server-IsServer change before delivered_ref.0
      delivered_ref.1

main_is_another : codes "main" ≢ branch_name change
unfolding branch_name
main_is_another h = ground (arith, h)

deliver-branch_name_example : head (deliver target change before).1 (codes "main") ≡ codes "c0"
deliver-branch_name_example =
    deliver-branch_name target head file server-IsServer change before (codes "main")
      main_is_another
