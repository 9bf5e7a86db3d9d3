-- ===== src/Scm/GitLab/Branches.antt =====
-- Which branches a delivery of internal/scm/gitlab/gitlab.go moves.
use cloud_sre_agent.Prelude.{
  ◌≡◌, ◌≢◌, refl, ◌∙◌, inl, inr, Bool, true, not, ◌&&◌, [], ◌∷◌, Option, Result, ok, err, Text,
  is_empty, Bool-cases, trim_space,
}
use cloud_sre_agent.Scm.{Change}
use cloud_sre_agent.Scm.Naming.{branch_name}
use cloud_sre_agent.Scm.GitLab.{
  ApiError, MergeRequest, CommitOptions, Target, DeliverError, is_branch_exists,
  is_merge_request_exists,
}
use cloud_sre_agent.Scm.GitLab.Deliver.{
  commit_options, existing_mr, branch_exists, file_exists_on_base, retry_commit, commit_action,
  commit_file, after_merge_request, after_commit, after_probe, after_base, deliver,
}
use cloud_sre_agent.Scm.GitLab.Laws.{IsServer, exists_of-snd, commit_result-snd, first_mr-snd}

module _ {W : Type 0} (t : Target W) (head : W → Text → Text) (file : W → Text → Text → Option Text)
    (server : IsServer t.client head file) where
  after_merge_request-head :
      (b : Text) (r : Result ApiError MergeRequest × W) (x : Text)
      → head (after_merge_request t b r).1 x ≡ head r.1 x
  unfolding after_merge_request existing_mr
  after_merge_request-head b (ok mr, w) x = refl
  after_merge_request-head b (err e, w) x = elim (Bool-cases (is_merge_request_exists e)) [
    | inl y ↦ rw (y, first_mr-snd t head file server) (server.list_merge_requests-head _ _ _ w x)
    | inr y ↦ rw y refl
  ]

  after_commit-head :
      (change : Change) (b : Text) (r : Result DeliverError (Unit {0}) × W) (x : Text)
      → head (after_commit t change b r).1 x ≡ head r.1 x
  unfolding after_commit
  after_commit-head change b (err e, w) x = refl
  after_commit-head change b (ok tt, w) x =
      after_merge_request-head b _ x ∙ server.create_merge_request-head _ w x

  retry_commit-head :
      (b : Bool) (o : CommitOptions) (r : Result ApiError (Unit {0}) × W) (x : Text)
      → x ≢ o.branch
      → head (retry_commit t b o r).1 x ≡ head r.1 x
  unfolding retry_commit
  retry_commit-head b o (ok tt, w) x n = refl
  retry_commit-head b o (err e, w) x n = elim (Bool-cases (not b && is_branch_exists e)) [
    | inl again ↦
        rw (again, commit_result-snd t head file server)
          (server.create_commit-head (record o { force = true }) w x n)
    | inr last ↦ rw last refl
  ]

  commit_action-head :
      (b : Text) (known : Bool) (change : Change) (r : Result DeliverError Bool × W) (x : Text)
      → x ≢ b
      → head (commit_action t b known change r).1 x ≡ head r.1 x
  unfolding commit_action commit_options
  commit_action-head b known change (err e, w) x n = refl
  commit_action-head b known change (ok y, w) x n =
      let o : CommitOptions = commit_options t b known change y in
      retry_commit-head known o (t.client.create_commit o w) x n ∙ server.create_commit-head o w x n

  commit_file-head :
      (b : Text) (known : Bool) (change : Change) (w : W) (x : Text)
      → x ≢ b
      → head (commit_file t b known change w).1 x ≡ head w x
  unfolding commit_file file_exists_on_base
  commit_file-head b known change w x n =
      commit_action-head b known change (file_exists_on_base t change.file_path w) x n
      ∙ rw exists_of-snd (server.get_file-head _ _ w x)

  after_probe-head :
      (change : Change) (b : Text) (r : Result DeliverError Bool × W) (x : Text)
      → x ≢ b
      → head (after_probe t change b r).1 x ≡ head r.1 x
  unfolding after_probe
  after_probe-head change b (err e, w) x n = refl
  after_probe-head change b (ok known, w) x n =
      after_commit-head change b _ x ∙ commit_file-head b known change w x n

  after_base-head :
      (change : Change) (r : Result ApiError Text × W) (x : Text)
      → x ≢ branch_name change
      → head (after_base t change r).1 x ≡ head r.1 x
  unfolding after_base branch_exists
  after_base-head change (err e, w) x n = refl
  after_base-head change (ok [], w) x n = refl
  after_base-head change (ok (c ∷ id), w) x n =
      after_probe-head change (branch_name change) (branch_exists t (branch_name change) w) x n
      ∙ rw exists_of-snd (server.get_branch-head _ w x)

  -- On a server that does what GitLab documents: a delivery, successful or failed at any call,
  -- moves no branch but the change's own, which starts with `sre-agent/`; so it leaves the base
  -- branch where it was, unless the base branch is that branch.
  pub deliver-branch_name :
      (change : Change) (w : W) (x : Text)
      → x ≢ branch_name change
      → head (deliver t change w).1 x ≡ head w x
  unfolding deliver
  deliver-branch_name change w x n = elim (Bool-cases (is_empty (trim_space change.file_path))) [
    | inl a ↦ rw a refl
    | inr a ↦ elim (Bool-cases (is_empty change.patch)) [
      | inl b ↦ rw (a, b) refl
      | inr b ↦ rw (a, b) (after_base-head change _ x n ∙ server.get_branch-head _ w x)
    ]
  ]
