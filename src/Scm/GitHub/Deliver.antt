-- ===== src/Scm/GitHub/Deliver.antt =====
-- internal/scm/github/github.go: `Deliver`, `putFile` and `existingPR`, with one helper for what
-- follows each call of the client.
use cloud_sre_agent.Prelude.{
  List, [], ◌∷◌, ◌++◌, Option, none, some, Result, ok, err, Text, codes, if◌then◌else◌, is_empty,
  trim_space,
}
use cloud_sre_agent.Prelude.Decimal.{format_int}
use cloud_sre_agent.Scm.{Change, Ref}
use cloud_sre_agent.Scm.Naming.{branch_name, commit_message, pr_title}
use cloud_sre_agent.Scm.GitHub.{
  ApiError, PullRequest, FileOptions, Target, is_already_exists, is_not_found, DeliverError,
  path_required, patch_empty, get_base_failed, base_has_no_sha, create_branch_failed,
  reset_branch_failed, path_is_directory, update_file_failed, create_file_failed, read_file_failed,
  open_failed, list_failed, none_found,
}

unfoldable pub pr_ref : PullRequest → Ref
pr_ref pr = record { id = format_int pr.number; url = pr.html_url }

-- The reference of a branch.
abbrev pub head_ref : Text → Text
head_ref branch = codes "refs/heads/" ++ branch

-- Name an error of the client as an error of the delivery.
unfoldable pub named :
    {A W : Type 0} → (ApiError → DeliverError) → Result ApiError A × W → Result DeliverError A × W
named f (ok a, w) = (ok a, w)
named f (err e, w) = (err (f e), w)

unfoldable pub file_options : Text → Change → FileOptions
file_options branch change = record {
  path = change.file_path;
  message = commit_message change;
  content = change.patch;
  branch = branch;
  sha = none;
}

module _ {W : Type 0} (t : Target W) where
  unfoldable pub first_pull :
      Text → Result ApiError (List PullRequest) × W → Result DeliverError Ref × W
  unfolding pr_ref
  first_pull branch (err e, w) = (err (list_failed branch e), w)
  first_pull branch (ok [], w) = (err (none_found branch), w)
  first_pull branch (ok (pr ∷ prs), w) = (ok (pr_ref pr), w)

  unfoldable pub existing_pr : Text → W → Result DeliverError Ref × W
  unfolding first_pull
  existing_pr branch w =
      first_pull branch (t.client.list_pulls (codes "open") (t.owner ++ (codes ":" ++ branch)) w)

  -- The cases of `putFile`, on what `GetContents` returned.
  unfoldable pub put_contents :
      FileOptions → Result ApiError (Option Text) × W → Result DeliverError (Unit {0}) × W
  unfolding named
  put_contents opts (ok none, w) = (err (path_is_directory opts.path), w)
  put_contents opts (ok (some []), w) =
      named (create_file_failed opts.path) (t.client.create_file opts w)
  put_contents opts (ok (some (c ∷ sha)), w) =
      named (update_file_failed opts.path)
        (t.client.update_file (record opts { sha = some (c ∷ sha) }) w)
  put_contents opts (err e, w) =
      if is_not_found e
      then named (create_file_failed opts.path) (t.client.create_file opts w)
      else (err (read_file_failed opts.path e), w)

  unfoldable pub put_file : Text → Change → W → Result DeliverError (Unit {0}) × W
  unfolding put_contents file_options
  put_file branch change w =
      put_contents (file_options branch change) (t.client.get_contents change.file_path branch w)

  -- (4) What follows the attempt to open the pull request.
  unfoldable pub after_pull : Text → Result ApiError PullRequest × W → Result DeliverError Ref × W
  unfolding existing_pr pr_ref
  after_pull branch (ok pr, w) = (ok (pr_ref pr), w)
  after_pull branch (err e, w) =
      let (r, w') = existing_pr branch w in
      if is_already_exists e then (r, w') else (err (open_failed e), w)

  unfoldable pub after_file :
      Change → Text → Result DeliverError (Unit {0}) × W → Result DeliverError Ref × W
  unfolding after_pull
  after_file change branch (err e, w) = (err e, w)
  after_file change branch (ok _, w) = after_pull branch (
      t.client.create_pull
        (record {
          title = pr_title change;
          head = branch;
          base = t.base_branch;
          body = change.description;
        })
        w)

  unfoldable pub after_branch :
      Change → Text → Result DeliverError (Unit {0}) × W → Result DeliverError Ref × W
  unfolding after_file put_file
  after_branch change branch (err e, w) = (err e, w)
  after_branch change branch (ok _, w) = after_file change branch (put_file branch change w)

  -- (2) A branch that exists is reset to the base.
  unfoldable pub reset_existing :
      Text → Text → Result ApiError (Unit {0}) × W → Result DeliverError (Unit {0}) × W
  unfolding named
  reset_existing branch sha (ok _, w) = (ok tt, w)
  reset_existing branch sha (err e, w) =
      if is_already_exists e
      then named (reset_branch_failed branch) (t.client.update_ref (head_ref branch) sha w)
      else (err (create_branch_failed branch e), w)

  unfoldable pub make_branch : Text → Text → W → Result DeliverError (Unit {0}) × W
  unfolding reset_existing
  make_branch branch sha w = reset_existing branch sha (t.client.create_ref (head_ref branch) sha w)

  unfoldable pub after_base : Change → Result ApiError Text × W → Result DeliverError Ref × W
  unfolding after_branch make_branch
  after_base change (err e, w) = (err (get_base_failed t.base_branch e), w)
  after_base change (ok [], w) = (err (base_has_no_sha t.base_branch), w)
  after_base change (ok (c ∷ sha), w) =
      after_branch change (branch_name change) (make_branch (branch_name change) (c ∷ sha) w)

  unfoldable pub deliver : Change → W → Result DeliverError Ref × W
  unfolding after_base
  deliver change w =
      if is_empty (trim_space change.file_path)
      then (err path_required, w)
      else (if is_empty change.patch
          then (err patch_empty, w)
          else after_base change (t.client.get_ref (head_ref t.base_branch) w))
