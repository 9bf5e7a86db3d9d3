-- ===== src/Scm/GitLab/Deliver.antt =====
-- internal/scm/gitlab/gitlab.go: `Deliver`, `branchExists`, `commitFile`, `fileExistsOnBase` and
-- `existingMR`, with one helper for what follows each call of the client.
use cloud_sre_agent.Prelude.{
  Bool, true, false, not, ◌&&◌, List, [], ◌∷◌, Result, ok, err, Text, codes, if◌then◌else◌,
  is_empty, trim_space,
}
use cloud_sre_agent.Prelude.Decimal.{format_int}
use cloud_sre_agent.Scm.{Change, Ref}
use cloud_sre_agent.Scm.Naming.{branch_name, commit_message, pr_title}
use cloud_sre_agent.Scm.GitLab.{
  ApiError, MergeRequest, FileAction, file_create, file_update, CommitOptions, Target, is_not_found,
  is_merge_request_exists, is_branch_exists, DeliverError, path_required, patch_empty,
  get_base_failed, base_has_no_commit, check_branch_failed, read_file_failed, commit_failed,
  open_failed, list_failed, none_found,
}

unfoldable pub mr_ref : MergeRequest → Ref
mr_ref mr = record { id = format_int mr.iid; url = mr.web_url }

-- Whether something exists, from the answer of a request for it.
unfoldable pub exists_of :
    {A W : Type 0}
    → (ApiError → DeliverError)
    → Result ApiError A × W
    → Result DeliverError Bool × W
exists_of f (ok a, w) = (ok true, w)
exists_of f (err e, w) = if is_not_found e then (ok false, w) else (err (f e), w)

unfoldable pub action_of : Bool → FileAction
action_of true = file_update
action_of false = file_create

module _ {W : Type 0} (t : Target W) where
  unfoldable pub commit_options : Text → Bool → Change → Bool → CommitOptions
  unfolding action_of
  commit_options branch branch_exists change file_exists = record {
    branch = branch;
    start_branch = t.base_branch;
    commit_message = commit_message change;
    action = action_of file_exists;
    file_path = change.file_path;
    content = change.patch;
    force = branch_exists;
  }

  unfoldable pub first_mr :
      Text → Result ApiError (List MergeRequest) × W → Result DeliverError Ref × W
  unfolding mr_ref
  first_mr branch (err e, w) = (err (list_failed branch e), w)
  first_mr branch (ok [], w) = (err (none_found branch), w)
  first_mr branch (ok (mr ∷ mrs), w) = (ok (mr_ref mr), w)

  unfoldable pub existing_mr : Text → W → Result DeliverError Ref × W
  unfolding first_mr
  existing_mr branch w =
      first_mr branch (t.client.list_merge_requests (codes "opened") branch t.base_branch w)

  unfoldable pub branch_exists : Text → W → Result DeliverError Bool × W
  unfolding exists_of
  branch_exists branch w = exists_of (check_branch_failed branch) (t.client.get_branch branch w)

  unfoldable pub file_exists_on_base : Text → W → Result DeliverError Bool × W
  unfolding exists_of
  file_exists_on_base path w =
      exists_of (read_file_failed path) (t.client.get_file path t.base_branch w)

  unfoldable pub commit_result :
      Text → Result ApiError (Unit {0}) × W → Result DeliverError (Unit {0}) × W
  commit_result path (ok _, w) = (ok tt, w)
  commit_result path (err e, w) = (err (commit_failed path e), w)

  -- A branch that has appeared since the probe is reset by a second, forced commit.
  unfoldable pub retry_commit :
      Bool → CommitOptions → Result ApiError (Unit {0}) × W → Result DeliverError (Unit {0}) × W
  unfolding commit_result
  retry_commit branch_exists opts (ok _, w) = (ok tt, w)
  retry_commit branch_exists opts (err e, w) =
      if not branch_exists && is_branch_exists e
      then commit_result opts.file_path (t.client.create_commit (record opts { force = true }) w)
      else (err (commit_failed opts.file_path e), w)

  unfoldable pub commit_action :
      Text → Bool → Change → Result DeliverError Bool × W → Result DeliverError (Unit {0}) × W
  unfolding retry_commit commit_options
  commit_action branch branch_exists change (err e, w) = (err e, w)
  commit_action branch branch_exists change (ok file_exists, w) =
      retry_commit branch_exists (commit_options branch branch_exists change file_exists)
        (t.client.create_commit (commit_options branch branch_exists change file_exists) w)

  unfoldable pub commit_file : Text → Bool → Change → W → Result DeliverError (Unit {0}) × W
  unfolding commit_action file_exists_on_base
  commit_file branch branch_exists change w =
      commit_action branch branch_exists change (file_exists_on_base change.file_path w)

  -- (4) What follows the attempt to open the merge request.
  unfoldable pub after_merge_request :
      Text → Result ApiError MergeRequest × W → Result DeliverError Ref × W
  unfolding existing_mr mr_ref
  after_merge_request branch (ok mr, w) = (ok (mr_ref mr), w)
  after_merge_request branch (err e, w) =
      let (r, w') = existing_mr branch w in
      if is_merge_request_exists e then (r, w') else (err (open_failed e), w)

  unfoldable pub after_commit :
      Change → Text → Result DeliverError (Unit {0}) × W → Result DeliverError Ref × W
  unfolding after_merge_request
  after_commit change branch (err e, w) = (err e, w)
  after_commit change branch (ok _, w) = after_merge_request branch (
      t.client.create_merge_request
        (record {
          title = pr_title change;
          description = change.description;
          source_branch = branch;
          target_branch = t.base_branch;
        })
        w)

  -- (3) The probe has told whether the branch exists.
  unfoldable pub after_probe :
      Change → Text → Result DeliverError Bool × W → Result DeliverError Ref × W
  unfolding after_commit commit_file
  after_probe change branch (err e, w) = (err e, w)
  after_probe change branch (ok exists, w) =
      after_commit change branch (commit_file branch exists change w)

  unfoldable pub after_base : Change → Result ApiError Text × W → Result DeliverError Ref × W
  unfolding after_probe branch_exists
  after_base change (err e, w) = (err (get_base_failed t.base_branch e), w)
  after_base change (ok [], w) = (err (base_has_no_commit t.base_branch), w)
  after_base change (ok (c ∷ id), w) =
      after_probe change (branch_name change) (branch_exists (branch_name change) w)

  unfoldable pub deliver : Change → W → Result DeliverError Ref × W
  unfolding after_base
  deliver change w =
      if is_empty (trim_space change.file_path)
      then (err path_required, w)
      else (if is_empty change.patch
          then (err patch_empty, w)
          else after_base change (t.client.get_branch t.base_branch w))
