-- ===== src/Scm/GitHub/Laws.antt =====
-- What a delivery of internal/scm/github/github.go leaves on the server. `IsServer` states what
-- GitHub documents of the methods that the package calls, by two views of the outside world: the
-- commit that a reference points at, and the content of a file on a branch.
use cloud_sre_agent.Prelude.{
  ◌≡◌, ◌≢◌, refl, ◌∙◌, inl, inr, List, [], ◌∷◌, Option, none, some, Result, ok, err, Text, is_empty,
  arith, Bool-cases, trim_space,
}
use cloud_sre_agent.Scm.{Change, Ref}
use cloud_sre_agent.Scm.Naming.{branch_name}
use cloud_sre_agent.Scm.GitHub.{
  ApiError, PullRequest, NewPullRequest, FileOptions, Api, Target, DeliverError, is_already_exists,
  is_not_found,
}
use cloud_sre_agent.Scm.GitHub.Deliver.{
  head_ref, named, first_pull, existing_pr, put_contents, put_file, file_options, after_pull,
  after_file, after_branch, reset_existing, make_branch, after_base, deliver,
}

pub record IsServer {W : Type 0} (api : Api W) (head : W → Text → Text)
    (file : W → Text → Text → Option Text) : Type 0 where
  -- a successful write of a file is seen on its branch
  pub create_file-content :
      (o : FileOptions) (w : W)
      → (api.create_file o w).0 ≡ ok tt
      → file (api.create_file o w).1 o.branch o.path ≡ some o.content
  pub update_file-content :
      (o : FileOptions) (w : W)
      → (api.update_file o w).0 ≡ ok tt
      → file (api.update_file o w).1 o.branch o.path ≡ some o.content
  -- pull requests change no file
  pub create_pull-file :
      (pr : NewPullRequest) (w : W) (b p : Text) → file (api.create_pull pr w).1 b p ≡ file w b p
  pub list_pulls-file :
      (s h : Text) (w : W) (b p : Text) → file (api.list_pulls s h w).1 b p ≡ file w b p
  -- a reference moves only by a write to it or to a file of its branch
  pub get_ref-head : (r : Text) (w : W) (x : Text) → head (api.get_ref r w).1 x ≡ head w x
  pub get_contents-head :
      (p b : Text) (w : W) (x : Text) → head (api.get_contents p b w).1 x ≡ head w x
  pub create_pull-head :
      (pr : NewPullRequest) (w : W) (x : Text) → head (api.create_pull pr w).1 x ≡ head w x
  pub list_pulls-head : (s h : Text) (w : W) (x : Text) → head (api.list_pulls s h w).1 x ≡ head w x
  pub create_ref-head :
      (r c : Text) (w : W) (x : Text) → x ≢ r → head (api.create_ref r c w).1 x ≡ head w x
  pub update_ref-head :
      (r c : Text) (w : W) (x : Text) → x ≢ r → head (api.update_ref r c w).1 x ≡ head w x
  pub create_file-head :
      (o : FileOptions) (w : W) (x : Text)
      → x ≢ head_ref o.branch
      → head (api.create_file o w).1 x ≡ head w x
  pub update_file-head :
      (o : FileOptions) (w : W) (x : Text)
      → x ≢ head_ref o.branch
      → head (api.update_file o w).1 x ≡ head w x

named-snd :
    {A W : Type 0} (f : ApiError → DeliverError) (r : Result ApiError A × W) → (named f r).1 ≡ r.1
unfolding named
named-snd f (ok a, w) = refl
named-snd f (err e, w) = refl

named-ok :
    {W : Type 0} (f : ApiError → DeliverError) (r : Result ApiError (Unit {0}) × W)
    → (named f r).0 ≡ ok tt
    → r.0 ≡ ok tt
unfolding named
named-ok f (ok tt, w) h = refl
named-ok f (err e, w) h = absurd (ground (arith, h))

module _ {W : Type 0} (t : Target W) (head : W → Text → Text) (file : W → Text → Text → Option Text)
    (server : IsServer t.client head file) where
  put_contents-file :
      (o : FileOptions) (r : Result ApiError (Option Text) × W)
      → (put_contents t o r).0 ≡ ok tt
      → file (put_contents t o r).1 o.branch o.path ≡ some o.content
  unfolding put_contents
  put_contents-file o (ok none, w) h = absurd (ground (arith, h))
  put_contents-file o (ok (some []), w) h =
      rw named-snd (server.create_file-content o w (named-ok _ (t.client.create_file o w) h))
  put_contents-file o (ok (some (c ∷ sha)), w) h =
      let o' : FileOptions = record o { sha = some (c ∷ sha) } in
      rw named-snd (server.update_file-content o' w (named-ok _ (t.client.update_file o' w) h))
  put_contents-file o (err e, w) h = elim (Bool-cases (is_not_found e)) [
    | inl b ↦
        rw (b, named-snd)
          (server.create_file-content o w (named-ok _ (t.client.create_file o w) (rw b at h)))
    | inr b ↦ absurd (ground (arith, h, b))
  ]

  first_pull-snd :
      (b : Text) (r : Result ApiError (List PullRequest) × W) → (first_pull t b r).1 ≡ r.1
  unfolding first_pull
  first_pull-snd b (err e, w) = refl
  first_pull-snd b (ok [], w) = refl
  first_pull-snd b (ok (pr ∷ prs), w) = refl

  after_pull-file :
      (b c p : Text) (r : Result ApiError PullRequest × W)
      → file (after_pull t b r).1 c p ≡ file r.1 c p
  unfolding after_pull existing_pr
  after_pull-file b c p (ok pr, w) = refl
  after_pull-file b c p (err e, w) = elim (Bool-cases (is_already_exists e)) [
    | inl x ↦ rw (x, first_pull-snd) (server.list_pulls-file _ _ w c p)
    | inr x ↦ rw x refl
  ]

  after_file-file :
      (change : Change) (b : Text) (r : Result DeliverError (Unit {0}) × W) (ref : Ref) (c p : Text)
      → (after_file t change b r).0 ≡ ok ref
      → (r.0 ≡ ok tt) × (file (after_file t change b r).1 c p ≡ file r.1 c p)
  unfolding after_file
  after_file-file change b (err e, w) ref c p h = absurd (ground (arith, h))
  after_file-file change b (ok tt, w) ref c p h =
      (refl, after_pull-file b c p _ ∙ server.create_pull-file _ w c p)

  after_branch-file :
      (change : Change) (b : Text) (r : Result DeliverError (Unit {0}) × W) (ref : Ref)
      → (after_branch t change b r).0 ≡ ok ref
      → file (after_branch t change b r).1 b change.file_path ≡ some change.patch
  unfolding after_branch put_file file_options
  after_branch-file change b (err e, w) ref h = absurd (ground (arith, h))
  after_branch-file change b (ok tt, w) ref h =
      let (put, kept) = after_file-file change b (put_file t b change w) ref b change.file_path h in
      kept ∙ put_contents-file (file_options b change) _ put

  after_base-file :
      (change : Change) (r : Result ApiError Text × W) (ref : Ref)
      → (after_base t change r).0 ≡ ok ref
      → file (after_base t change r).1 (branch_name change) change.file_path ≡ some change.patch
  unfolding after_base
  after_base-file change (err e, w) ref h = absurd (ground (arith, h))
  after_base-file change (ok [], w) ref h = absurd (ground (arith, h))
  after_base-file change (ok (c ∷ sha), w) ref h = after_branch-file change _ _ ref h

  -- On a server that does what GitHub documents: when a delivery returns the reference of a pull
  -- request, whichever of the calls before it failed and were recovered from, the branch of the
  -- change holds the whole patch as the content of the change's file.
  pub deliver-file :
      (change : Change) (w : W) (ref : Ref)
      → (deliver t change w).0 ≡ ok ref
      → file (deliver t change w).1 (branch_name change) change.file_path ≡ some change.patch
  unfolding deliver
  deliver-file change w ref h = elim (Bool-cases (is_empty (trim_space change.file_path))) [
    | inl a ↦ absurd (ground (arith, h, a))
    | inr a ↦ elim (Bool-cases (is_empty change.patch)) [
      | inl b ↦ absurd (ground (arith, h, a, b))
      | inr b ↦ rw (a, b) (after_base-file change _ ref (rw (a, b) at h))
    ]
  ]

  put_contents-head :
      (o : FileOptions) (r : Result ApiError (Option Text) × W) (x : Text)
      → x ≢ head_ref o.branch
      → head (put_contents t o r).1 x ≡ head r.1 x
  unfolding put_contents
  put_contents-head o (ok none, w) x n = refl
  put_contents-head o (ok (some []), w) x n = rw named-snd (server.create_file-head o w x n)
  put_contents-head o (ok (some (c ∷ sha)), w) x n =
      rw named-snd (server.update_file-head (record o { sha = some (c ∷ sha) }) w x n)
  put_contents-head o (err e, w) x n = elim (Bool-cases (is_not_found e)) [
    | inl b ↦ rw (b, named-snd) (server.create_file-head o w x n)
    | inr b ↦ rw b refl
  ]

  after_pull-head :
      (b : Text) (r : Result ApiError PullRequest × W) (x : Text)
      → head (after_pull t b r).1 x ≡ head r.1 x
  unfolding after_pull existing_pr
  after_pull-head b (ok pr, w) x = refl
  after_pull-head b (err e, w) x = elim (Bool-cases (is_already_exists e)) [
    | inl y ↦ rw (y, first_pull-snd) (server.list_pulls-head _ _ w x)
    | inr y ↦ rw y refl
  ]

  after_file-head :
      (change : Change) (b : Text) (r : Result DeliverError (Unit {0}) × W) (x : Text)
      → head (after_file t change b r).1 x ≡ head r.1 x
  unfolding after_file
  after_file-head change b (err e, w) x = refl
  after_file-head change b (ok tt, w) x = after_pull-head b _ x ∙ server.create_pull-head _ w x

  after_branch-head :
      (change : Change) (b : Text) (r : Result DeliverError (Unit {0}) × W) (x : Text)
      → x ≢ head_ref b
      → head (after_branch t change b r).1 x ≡ head r.1 x
  unfolding after_branch put_file file_options
  after_branch-head change b (err e, w) x n = refl
  after_branch-head change b (ok tt, w) x n =
      after_file-head change b (put_file t b change w) x
      ∙ (put_contents-head (file_options b change) _ x n ∙ server.get_contents-head _ _ w x)

  make_branch-head :
      (b sha : Text) (r : Result ApiError (Unit {0}) × W) (x : Text)
      → x ≢ head_ref b
      → head (reset_existing t b sha r).1 x ≡ head r.1 x
  unfolding reset_existing
  make_branch-head b sha (ok tt, w) x n = refl
  make_branch-head b sha (err e, w) x n = elim (Bool-cases (is_already_exists e)) [
    | inl y ↦ rw (y, named-snd) (server.update_ref-head _ sha w x n)
    | inr y ↦ rw y refl
  ]

  after_base-head :
      (change : Change) (r : Result ApiError Text × W) (x : Text)
      → x ≢ head_ref (branch_name change)
      → head (after_base t change r).1 x ≡ head r.1 x
  unfolding after_base make_branch
  after_base-head change (err e, w) x n = refl
  after_base-head change (ok [], w) x n = refl
  after_base-head change (ok (c ∷ sha), w) x n =
      after_branch-head change _ _ x n
      ∙ (make_branch-head _ _ _ x n ∙ server.create_ref-head _ _ w x n)

  -- On a server that does what GitHub documents: a delivery, successful or failed at any call,
  -- moves no reference but that of the change's own branch, which starts with `sre-agent/`; so it
  -- leaves the base branch where it was, unless the base branch is that branch.
  pub deliver-head :
      (change : Change) (w : W) (x : Text)
      → x ≢ head_ref (branch_name change)
      → head (deliver t change w).1 x ≡ head w x
  unfolding deliver
  deliver-head change w x n = elim (Bool-cases (is_empty (trim_space change.file_path))) [
    | inl a ↦ rw a refl
    | inr a ↦ elim (Bool-cases (is_empty change.patch)) [
      | inl b ↦ rw (a, b) refl
      | inr b ↦ rw (a, b) (after_base-head change _ x n ∙ server.get_ref-head _ w x)
    ]
  ]
