-- ===== src/Tests/Delivery.antt =====
-- Runs of the delivery to GitHub, with a server in memory.
use cloud_sre_agent.Prelude.{
  ℕ, ◌+◌, ◌≡◌, ◌≢◌, refl, ◌&&◌, [], Option, none, some, Result, ok, err, Text, codes, trim_space,
  text_eq, text_eq_iff, is_empty, if◌then◌else◌, arith,
}
use cloud_sre_agent.Domain.Levels.{severity_error}
use cloud_sre_agent.Scm.{Change, Ref}
use cloud_sre_agent.Scm.Naming.{branch_name}
use cloud_sre_agent.Scm.GitHub.{ApiError, FileOptions, Api, Target, is_already_exists, is_not_found}
use cloud_sre_agent.Scm.GitHub.Deliver.{head_ref, deliver}
use cloud_sre_agent.Scm.GitHub.Laws.{IsServer, deliver-file, deliver-head}

record Server : Type 0 where
  heads : Text → Text
  files : Text → Text → Option Text
  pulls : ℕ

abbrev set_head : Text → Text → Server → Server
set_head r c w = record w { heads = λ x. if text_eq x r then c else w.heads x }

abbrev write : FileOptions → Server → Server
write o w = set_head (head_ref o.branch) (codes "new") (record w {
  files = λ b p. if text_eq b o.branch && text_eq p o.path then some o.content else w.files b p;
})

abbrev refused : ℕ → ApiError
refused code = record { status = some code; message = codes "refused" }

abbrev blob_of : Option Text → Result ApiError (Option Text)
blob_of none = err (refused 404)
blob_of (some content) = ok (some (codes "blob"))

abbrev server : Api Server
server = record {
  get_ref = λ r w. (ok (w.heads r), w);
  create_ref =
      λ r c w. if is_empty (w.heads r) then (ok tt, set_head r c w) else (err (refused 422), w);
  update_ref = λ r c w. (ok tt, set_head r c w);
  get_contents = λ path branch w. (blob_of (w.files branch path), w);
  create_file = λ o w. (ok tt, write o w);
  update_file = λ o w. (ok tt, write o w);
  create_pull = λ pr w. (
    ok (record { number = w.pulls + 1; html_url = codes "pull" }),
    record w { pulls = w.pulls + 1 },
  );
  list_pulls = λ s h w. (ok [], w);
}

abbrev head : Server → Text → Text
head w = w.heads

abbrev file : Server → Text → Text → Option Text
file w = w.files

server-IsServer : IsServer server head file
server-IsServer = record {
  create_file-content =
      λ o w h. rw ((text_eq_iff o.branch o.branch).1 refl, (text_eq_iff o.path o.path).1 refl) refl;
  update_file-content =
      λ o w h. rw ((text_eq_iff o.branch o.branch).1 refl, (text_eq_iff o.path o.path).1 refl) refl;
  create_pull-file = λ pr w b p. refl;
  list_pulls-file = λ s h w b p. refl;
  get_ref-head = λ r w x. refl;
  get_contents-head = λ p b w x. refl;
  create_pull-head = λ pr w x. refl;
  list_pulls-head = λ s h w x. refl;
  create_ref-head = λ r c w x n. ground (arith, n, text_eq_iff x r);
  update_ref-head = λ r c w x n. ground (arith, n, text_eq_iff x r);
  create_file-head = λ o w x n. ground (arith, n, text_eq_iff x (head_ref o.branch));
  update_file-head = λ o w x n. ground (arith, n, text_eq_iff x (head_ref o.branch));
}

abbrev target : Target Server
target = record { client = server; owner = codes "acme"; base_branch = codes "main" }

-- The branch of the change lingers from an earlier delivery.
abbrev before : Server
before = record {
  heads = λ r. if text_eq r (codes "refs/heads/main") then codes "c0" else codes "old";
  files = λ b p. none;
  pulls = 4;
}

abbrev change : Change
change = record {
  file_path = codes "db/pool.go";
  patch = codes "package db";
  description = codes "raise the limit";
  severity = severity_error;
}

delivered_ref : (ref : Ref) × ((deliver target change before).0 ≡ ok ref)
unfolding deliver trim_space text_eq branch_name is_already_exists is_not_found
delivered_ref = (_, refl)

deliver-file_example :
    file (deliver target change before).1 (branch_name change) (codes "db/pool.go")
    ≡ some (codes "package db")
deliver-file_example =
    deliver-file target head file server-IsServer change before delivered_ref.0 delivered_ref.1

main_is_another : codes "refs/heads/main" ≢ head_ref (branch_name change)
unfolding branch_name
main_is_another h = ground (arith, h)

deliver-head_example : head (deliver target change before).1 (codes "refs/heads/main") ≡ codes "c0"
unfolding text_eq
deliver-head_example =
    deliver-head target head file server-IsServer change before (codes "refs/heads/main")
      main_is_another
