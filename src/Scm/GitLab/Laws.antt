-- ===== src/Scm/GitLab/Laws.antt =====
-- What a delivery of internal/scm/gitlab/gitlab.go leaves on the server. `IsServer` states what
-- GitLab documents of the methods that the package calls, by two views of the outside world: the
-- commit of a branch, and the content of a file on a branch.
use cloud_sre_agent.Prelude.{
  ◌≡◌, ◌≢◌, refl, ◌∙◌, inl, inr, Bool, true, not, ◌&&◌, List, [], ◌∷◌, Option, some, Result, ok,
  err, Text, is_empty, arith, Bool-cases, trim_space,
}
use cloud_sre_agent.Scm.{Change, Ref}
use cloud_sre_agent.Scm.Naming.{branch_name}
use cloud_sre_agent.Scm.GitLab.{
  ApiError, MergeRequest, NewMergeRequest, CommitOptions, Api, Target, DeliverError,
  is_branch_exists, is_merge_request_exists,
}
use cloud_sre_agent.Scm.GitLab.Deliver.{
  exists_of, commit_options, first_mr, existing_mr, commit_result, retry_commit, commit_action,
  commit_file, after_merge_request, after_commit, after_probe, after_base, deliver,
}

pub record IsServer {W : Type 0} (api : Api W) (head : W → Text → Text)
    (file : W → Text → Text → Option Text) : Type 0 where
  -- a successful commit is seen on its branch
  pub create_commit-content :
      (o : CommitOptions) (w : W)
      → (api.create_commit o w).0 ≡ ok tt
      → file (api.create_commit o w).1 o.branch o.file_path ≡ some o.content
  -- merge requests change no file
  pub create_merge_request-file :
      (mr : NewMergeRequest) (w : W) (b p : Text)
      → file (api.create_merge_request mr w).1 b p ≡ file w b p
  pub list_merge_requests-file :
      (s b t : Text) (w : W) (c p : Text)
      → file (api.list_merge_requests s b t w).1 c p ≡ file w c p
  -- a branch moves only by a commit to it
  pub get_branch-head : (b : Text) (w : W) (x : Text) → head (api.get_branch b w).1 x ≡ head w x
  pub get_file-head : (p b : Text) (w : W) (x : Text) → head (api.get_file p b w).1 x ≡ head w x
  pub create_merge_request-head :
      (mr : NewMergeRequest) (w : W) (x : Text)
      → head (api.create_merge_request mr w).1 x ≡ head w x
  pub list_merge_requests-head :
      (s b t : Text) (w : W) (x : Text) → head (api.list_merge_requests s b t w).1 x ≡ head w x
  pub create_commit-head :
      (o : CommitOptions) (w : W) (x : Text)
      → x ≢ o.branch
      → head (api.create_commit o w).1 x ≡ head w x

pub exists_of-snd :
    {A W : Type 0} (f : ApiError → DeliverError) (r : Result ApiError A × W)
    → (exists_of f r).1 ≡ r.1
unfolding exists_of
exists_of-snd f (ok a, w) = refl
exists_of-snd f (err e, w) = ground arith

module _ {W : Type 0} (t : Target W) (head : W → Text → Text) (file : W → Text → Text → Option Text)
    (server : IsServer t.client head file) where
  commit_result-fst :
      (p : Text) (r : Result ApiError (Unit {0}) × W)
      → (commit_result t p r).0 ≡ ok tt
      → r.0 ≡ ok tt
  unfolding commit_result
  commit_result-fst p (ok tt, w) h = refl
  commit_result-fst p (err e, w) h = absurd (ground (arith, h))

  pub commit_result-snd :
      (p : Text) (r : Result ApiError (Unit {0}) × W) → (commit_result t p r).1 ≡ r.1
  unfolding commit_result
  commit_result-snd p (ok tt, w) = refl
  commit_result-snd p (err e, w) = refl

  pub first_mr-snd :
      (b : Text) (r : Result ApiError (List MergeRequest) × W) → (first_mr t b r).1 ≡ r.1
  unfolding first_mr
  first_mr-snd b (err e, w) = refl
  first_mr-snd b (ok [], w) = refl
  first_mr-snd b (ok (mr ∷ mrs), w) = refl

  -- A commit, retried or not, that succeeds is seen on its branch.
  retry_commit-file :
      (b : Bool) (o : CommitOptions) (r : Result ApiError (Unit {0}) × W)
      → (r.0 ≡ ok tt → file r.1 o.branch o.file_path ≡ some o.content)
      → (retry_commit t b o r).0 ≡ ok tt
      → file (retry_commit t b o r).1 o.branch o.file_path ≡ some o.content
  unfolding retry_commit
  retry_commit-file b o (ok tt, w) seen h = seen refl
  retry_commit-file b o (err e, w) seen h = elim (Bool-cases (not b && is_branch_exists e)) [
    | inl again ↦
        let o' : CommitOptions = record o { force = true } in
        rw (again, commit_result-snd)
          (server.create_commit-content o' w (commit_result-fst o.file_path _ (rw again at h)))
    | inr last ↦ absurd (ground (arith, h, last))
  ]

  commit_action-file :
      (b : Text) (known : Bool) (change : Change) (r : Result DeliverError Bool × W)
      → (commit_action t b known change r).0 ≡ ok tt
      → file (commit_action t b known change r).1 b change.file_path ≡ some change.patch
  unfolding commit_action commit_options
  commit_action-file b known change (err e, w) h = absurd (ground (arith, h))
  commit_action-file b known change (ok x, w) h =
      let o : CommitOptions = commit_options t b known change x in
      retry_commit-file known o (t.client.create_commit o w) (server.create_commit-content o w) h

  after_merge_request-file :
      (b c p : Text) (r : Result ApiError MergeRequest × W)
      → file (after_merge_request t b r).1 c p ≡ file r.1 c p
  unfolding after_merge_request existing_mr
  after_merge_request-file b c p (ok mr, w) = refl
  after_merge_request-file b c p (err e, w) = elim (Bool-cases (is_merge_request_exists e)) [
    | inl x ↦ rw (x, first_mr-snd) (server.list_merge_requests-file _ _ _ w c p)
    | inr x ↦ rw x refl
  ]

  after_commit-file :
      (change : Change) (b : Text) (r : Result DeliverError (Unit {0}) × W) (ref : Ref) (c p : Text)
      → (after_commit t change b r).0 ≡ ok ref
      → (r.0 ≡ ok tt) × (file (after_commit t change b r).1 c p ≡ file r.1 c p)
  unfolding after_commit
  after_commit-file change b (err e, w) ref c p h = absurd (ground (arith, h))
  after_commit-file change b (ok tt, w) ref c p h =
      (refl, after_merge_request-file b c p _ ∙ server.create_merge_request-file _ w c p)

  after_probe-file :
      (change : Change) (b : Text) (r : Result DeliverError Bool × W) (ref : Ref)
      → (after_probe t change b r).0 ≡ ok ref
      → file (after_probe t change b r).1 b change.file_path ≡ some change.patch
  unfolding after_probe commit_file
  after_probe-file change b (err e, w) ref h = absurd (ground (arith, h))
  after_probe-file change b (ok known, w) ref h =
      let (done, kept) =
        after_commit-file change b (commit_file t b known change w) ref b change.file_path h in
      kept ∙ commit_action-file b known change _ done

  after_base-file :
      (change : Change) (r : Result ApiError Text × W) (ref : Ref)
      → (after_base t change r).0 ≡ ok ref
      → file (after_base t change r).1 (branch_name change) change.file_path ≡ some change.patch
  unfolding after_base
  after_base-file change (err e, w) ref h = absurd (ground (arith, h))
  after_base-file change (ok [], w) ref h = absurd (ground (arith, h))
  after_base-file change (ok (c ∷ id), w) ref h = after_probe-file change _ _ ref h

  -- On a server that does what GitLab documents: when a delivery returns the reference of a merge
  -- request, also after a forced second commit or by an existing merge request, the branch of the
  -- change holds the whole patch as the content of the change's file.
  pub deliver-commit_file :
      (change : Change) (w : W) (ref : Ref)
      → (deliver t change w).0 ≡ ok ref
      → file (deliver t change w).1 (branch_name change) change.file_path ≡ some change.patch
  unfolding deliver
  deliver-commit_file change w ref h = elim (Bool-cases (is_empty (trim_space change.file_path))) [
    | inl a ↦ absurd (ground (arith, h, a))
    | inr a ↦ elim (Bool-cases (is_empty change.patch)) [
      | inl b ↦ absurd (ground (arith, h, a, b))
      | inr b ↦ rw (a, b) (after_base-file change _ ref (rw (a, b) at h))
    ]
  ]
