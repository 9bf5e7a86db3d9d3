-- ===== src/Scm/GitHub.antt =====
-- internal/scm/github/github.go: delivery of a change as a pull request. The GitHub client is the
-- parameter `Api` over a state `W` of the outside world: a method of go-github is a function that
-- returns a result and the next state. The context and the owner and repository, which every call
-- passes on unchanged, belong to the client.
pub mod Deliver
pub mod Laws
use cloud_sre_agent.Prelude.{
  ℕ, Bool, true, false, List, [], ◌∷◌, Option, none, some, Result, ok, err, Text, codes,
  if◌then◌else◌, ◌==◌, is_empty, trim_space,
}
use cloud_sre_agent.Scm.{Ref}

-- An error of the client: the status code, if GitHub answered, and the text.
pub record ApiError : Type 0 where
  pub status : Option ℕ
  pub message : Text

pub record PullRequest : Type 0 where
  pub number : ℕ
  pub html_url : Text

pub record NewPullRequest : Type 0 where
  pub title : Text
  pub head : Text
  pub base : Text
  pub body : Text

-- `RepositoryContentFileOptions`, with the path.
pub record FileOptions : Type 0 where
  pub path : Text
  pub message : Text
  pub content : Text
  pub branch : Text
  pub sha : Option Text

-- The methods of go-github that the package calls.
pub record Api (W : Type 0) : Type 0 where
  -- `Git.GetRef` of a reference: its SHA, empty when it has none
  pub get_ref : Text → W → Result ApiError Text × W
  -- `Git.CreateRef` and `Git.UpdateRef` (forced) of a reference, to a SHA
  pub create_ref : Text → Text → W → Result ApiError (Unit {0}) × W
  pub update_ref : Text → Text → W → Result ApiError (Unit {0}) × W
  -- `Repositories.GetContents` of a path on a branch: the blob's SHA, none for a directory
  pub get_contents : Text → Text → W → Result ApiError (Option Text) × W
  pub create_file : FileOptions → W → Result ApiError (Unit {0}) × W
  pub update_file : FileOptions → W → Result ApiError (Unit {0}) × W
  pub create_pull : NewPullRequest → W → Result ApiError PullRequest × W
  -- `PullRequests.List` of the pull requests with a state and a head
  pub list_pulls : Text → Text → W → Result ApiError (List PullRequest) × W

-- `GitHubTarget`
pub record Target (W : Type 0) : Type 0 where
  pub client : Api W
  pub owner : Text
  pub base_branch : Text

-- `New` up to the construction of the client: the owner and the repository are required.
pub data ConfigError : Type 0 where
  owner_required : ConfigError
  repo_required : ConfigError

unfoldable pub check_config : Text → Text → Result ConfigError (Unit {0})
check_config owner repo =
    if is_empty (trim_space owner)
    then err owner_required
    else (if is_empty (trim_space repo) then err repo_required else ok tt)

unfoldable pub new_with_client : {W : Type 0} → Api W → Text → Text → Target W
new_with_client client owner base_branch = record {
  client = client;
  owner = owner;
  base_branch = if is_empty (trim_space base_branch) then codes "main" else base_branch;
}

unfoldable pub has_status : ApiError → ℕ → Bool
has_status e code = is_status e.status
  where
    is_status : Option ℕ → Bool
    is_status none = false
    is_status (some s) = s == code

unfoldable pub is_already_exists : ApiError → Bool
unfolding has_status
is_already_exists e = has_status e 422

unfoldable pub is_not_found : ApiError → Bool
unfolding has_status
is_not_found e = has_status e 404

pub data DeliverError : Type 0 where
  path_required patch_empty : DeliverError
  get_base_failed : Text → ApiError → DeliverError
  base_has_no_sha : Text → DeliverError
  create_branch_failed : Text → ApiError → DeliverError
  reset_branch_failed : Text → ApiError → DeliverError
  path_is_directory : Text → DeliverError
  update_file_failed create_file_failed read_file_failed : Text → ApiError → DeliverError
  open_failed : ApiError → DeliverError
  list_failed : Text → ApiError → DeliverError
  none_found : Text → DeliverError
