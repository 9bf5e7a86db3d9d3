-- ===== src/Scm/GitLab.antt =====
-- internal/scm/gitlab/gitlab.go: delivery of a change as a merge request. The GitLab client is the
-- parameter `Api` over a state `W` of the outside world; the context and the project, which every
-- call passes on unchanged, belong to it. The names of a delivery are those of `Scm.Naming`.
pub mod Deliver
pub mod Laws
pub mod Branches
use cloud_sre_agent.Prelude.{
  ℕ, Bool, true, false, not, ◌&&◌, List, Option, none, some, Result, ok, err, Text, codes,
  if◌then◌else◌, ◌==◌, is_empty, trim_space, contains, to_lower,
}

-- An error of the client: the status code, if GitLab answered, and the message.
pub record ApiError : Type 0 where
  pub status : Option ℕ
  pub message : Text

pub record MergeRequest : Type 0 where
  pub iid : ℕ
  pub web_url : Text

pub record NewMergeRequest : Type 0 where
  pub title : Text
  pub description : Text
  pub source_branch : Text
  pub target_branch : Text

pub data FileAction : Type 0 where
  file_create file_update : FileAction

-- `CreateCommitOptions` with their single action.
pub record CommitOptions : Type 0 where
  pub branch : Text
  pub start_branch : Text
  pub commit_message : Text
  pub action : FileAction
  pub file_path : Text
  pub content : Text
  pub force : Bool

-- The methods of the client that the package calls.
pub record Api (W : Type 0) : Type 0 where
  -- the id of a branch's commit, empty when it has none
  pub get_branch : Text → W → Result ApiError Text × W
  -- whether a path exists on a reference
  pub get_file : Text → Text → W → Result ApiError (Unit {0}) × W
  pub create_commit : CommitOptions → W → Result ApiError (Unit {0}) × W
  pub create_merge_request : NewMergeRequest → W → Result ApiError MergeRequest × W
  -- the merge requests of a state, a source branch and a target branch
  pub list_merge_requests : Text → Text → Text → W → Result ApiError (List MergeRequest) × W

-- `GitLabTarget`
pub record Target (W : Type 0) : Type 0 where
  pub client : Api W
  pub base_branch : Text

unfoldable pub new_with_client : {W : Type 0} → Api W → Text → Target W
new_with_client client base_branch = record {
  client = client;
  base_branch = if is_empty (trim_space base_branch) then codes "main" else base_branch;
}

unfoldable pub has_status : ApiError → ℕ → Bool
has_status e code = is_status e.status
  where
    is_status : Option ℕ → Bool
    is_status none = false
    is_status (some s) = s == code

unfoldable pub is_not_found : ApiError → Bool
unfolding has_status
is_not_found e = has_status e 404

unfoldable pub is_merge_request_exists : ApiError → Bool
unfolding has_status
is_merge_request_exists e = has_status e 409

unfoldable pub is_branch_exists : ApiError → Bool
unfolding has_status
is_branch_exists e = has_status e 400 && contains (to_lower e.message) (codes "already exists")

pub data DeliverError : Type 0 where
  path_required patch_empty : DeliverError
  get_base_failed : Text → ApiError → DeliverError
  base_has_no_commit : Text → DeliverError
  check_branch_failed read_file_failed commit_failed : Text → ApiError → DeliverError
  open_failed : ApiError → DeliverError
  list_failed : Text → ApiError → DeliverError
  none_found : Text → DeliverError
