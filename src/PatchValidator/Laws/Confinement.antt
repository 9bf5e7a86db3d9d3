-- ===== src/PatchValidator/Laws/Confinement.antt =====
-- What the validator does to the outside world.
use cloud_sre_agent.Prelude.{
  ◌≡◌, ◌⊎◌, refl, ap, ◌∙◌, inl, inr, List, [], ◌∷◌, ◌++◌, Result, ok, err, Text, codes, arith, All,
  All-append, Option-cases,
}
use mathlib.Core.List.{append_assoc}
use cloud_sre_agent.PatchValidator.{
  Command, Tools, Act, made, wrote, ran, removed, State, patch_file_name, sandbox_env, call,
  run_gofmt, mod_init, go_vet, run_vet, run_gates, in_dir, clean_up, with_dir, validate_go,
  validate,
}
use cloud_sre_agent.PatchValidator.Laws.Gates.{made_in, wrote_to}

module _ {W : Type 0} (tools : Tools W) where
  -- The environment of the sandbox: homes and caches in the directory, no proxy, no checksum database,
  -- no other toolchain and no C compiler.
  abbrev pub closed_env : Text → W → List Text
  closed_env dir w =
      (codes "PATH=" ++ tools.getenv (codes "PATH") w)
      ∷ (codes "HOME=" ++ dir)
      ∷ (codes "GOPATH=" ++ tools.join_path dir (codes "gopath"))
      ∷ (codes "GOCACHE=" ++ tools.join_path dir (codes "gocache"))
      ∷ codes "GOFLAGS=-mod=mod"
      ∷ codes "GOPROXY=off"
      ∷ codes "GOTOOLCHAIN=local"
      ∷ codes "CGO_ENABLED=0"
      ∷ codes "GONOSUMCHECK=1"
      ∷ codes "GOSUMDB=off"
      ∷ []

  -- What is done between the making of a directory and its removal: the patch itself is written into
  -- it, and in the environment of the sandbox commands run in the directory, or `gofmt` lists the
  -- patch's file.
  pub data IsConfined (patch dir : Text) : Act → Type 0 where
    wrote_patch : IsConfined patch dir (wrote (tools.join_path dir (codes "patch.go")) patch)
    ran_inside :
        (c : Command) (w : W)
        → c.env ≡ closed_env dir w
        → c.dir ≡ dir
        → IsConfined patch dir (ran c)
    listed_patch :
        (c : Command) (w : W)
        → c.env ≡ closed_env dir w
        → c.program ≡ codes "gofmt"
        → c.args ≡ codes "-l" ∷ tools.join_path dir (codes "patch.go") ∷ []
        → IsConfined patch dir (ran c)

  pub record Extends (patch dir : Text) (s s' : State W) : Type 0 where
    pub mid : List Act
    pub acts_eq : s'.acts ≡ s.acts ++ mid
    pub confined : All (IsConfined patch dir) mid

  Extends-trans :
      (patch dir : Text) (a b c : State W)
      → Extends patch dir a b
      → Extends patch dir b c
      → Extends patch dir a c
  Extends-trans patch dir a b c x y = record {
    mid = x.mid ++ y.mid;
    acts_eq = y.acts_eq ∙ ap (λ xs. xs ++ y.mid) x.acts_eq ∙ append_assoc a.acts x.mid y.mid;
    confined = All-append (IsConfined patch dir) x.mid y.mid x.confined y.confined;
  }

  call-Extends :
      (patch dir : Text) (c : Command) (s : State W)
      → IsConfined patch dir (ran c)
      → Extends patch dir s (call tools c s).1
  unfolding call
  call-Extends patch dir c s confined = record {
    mid = ran c ∷ [];
    acts_eq = refl;
    confined = (confined, tt);
  }

  run_gofmt-Extends :
      (patch dir : Text) (w : W) (s : State W)
      → Extends patch dir s
          (run_gofmt tools (sandbox_env tools dir w) (tools.join_path dir patch_file_name) s).1
  unfolding run_gofmt sandbox_env
  run_gofmt-Extends patch dir w s = call-Extends patch dir _ s (listed_patch _ w refl refl refl)

  mod_init-Extends :
      (patch dir : Text) (w : W) (s : State W)
      → Extends patch dir s (mod_init tools (sandbox_env tools dir w) dir s).1
  unfolding mod_init sandbox_env
  mod_init-Extends patch dir w s = call-Extends patch dir _ s (ran_inside _ w refl refl)

  go_vet-Extends :
      (patch dir : Text) (w : W) (s : State W)
      → Extends patch dir s (go_vet tools (sandbox_env tools dir w) dir s).1
  unfolding go_vet sandbox_env
  go_vet-Extends patch dir w s = call-Extends patch dir _ s (ran_inside _ w refl refl)

  run_vet-Extends :
      (patch dir : Text) (w : W) (s : State W)
      → Extends patch dir s (run_vet tools (sandbox_env tools dir w) dir s).1
  unfolding run_vet
  run_vet-Extends patch dir w s =
      let env = sandbox_env tools dir w in
      let first = mod_init-Extends patch dir w s in
      elim (Option-cases (mod_init tools env dir s).0.error) [
        | inl e ↦
            rw (e, run_vet)
              (Extends-trans patch dir s _ _ first
                (go_vet-Extends patch dir w (mod_init tools env dir s).1))
        | inr (x, e) ↦ rw (e, run_vet) first
      ]

  run_gates-Extends :
      (patch dir : Text) (s : State W)
      → Extends patch dir s (run_gates tools dir (tools.join_path dir patch_file_name) s).1
  unfolding run_gates
  run_gates-Extends patch dir s =
      Extends-trans patch dir s _ _ (run_gofmt-Extends patch dir s.world s)
        (run_vet-Extends patch dir s.world _)

  in_dir-Extends :
      (dir patch : Text) (s : State W) → Extends patch dir s (in_dir tools dir patch s).1
  unfolding in_dir
  in_dir-Extends dir patch s =
      let path = tools.join_path dir patch_file_name in
      let first : Extends patch dir s (wrote_to tools path patch s) = record {
        mid = wrote path patch ∷ [];
        acts_eq = refl;
        confined = (wrote_patch, tt);
      } in
      elim (Option-cases (tools.write_file path patch s.world).0) [
        | inl e ↦
            rw (e, in_dir)
              (Extends-trans patch dir s _ _ first
                (run_gates-Extends patch dir (wrote_to tools path patch s)))
        | inr (x, e) ↦ rw (e, in_dir) first
      ]

  -- No trace, or those of a directory made and removed.
  abbrev pub IsTidy : Text → State W → State W → Type 0
  IsTidy patch s s' =
      (s'.acts ≡ s.acts)
      ⊎ ((dir : Text) × (mid : List Act) × (s'.acts
            ≡ s.acts ++ made dir ∷ (mid ++ removed dir ∷ []))
          × All (IsConfined patch dir) mid)

  with_dir-IsTidy :
      (patch : Text) (created : Result Text Text) (w : W) (s : State W)
      → IsTidy patch s (with_dir tools patch created (record s { world = w })).1
  unfolding with_dir clean_up
  with_dir-IsTidy patch (err e) w s = inl refl
  with_dir-IsTidy patch (ok dir) w s =
      let x = in_dir-Extends dir patch (made_in tools dir w s) in
      inr (
        dir,
        x.mid,
        ap (λ xs. xs ++ removed dir ∷ []) x.acts_eq
            ∙ append_assoc (s.acts ++ made dir ∷ []) x.mid (removed dir ∷ [])
            ∙ append_assoc s.acts (made dir ∷ []) (x.mid ++ removed dir ∷ []),
        x.confined,
      )

  -- Whatever the tools answer, `Validate` leaves either no trace, or the traces of one directory that it
  -- made and then removed: meanwhile it only wrote the patch itself to `patch.go` in it and ran commands,
  -- each with the environment of the sandbox and nothing else, and each in the directory but for
  -- `gofmt -l` of the patch's file.
  pub validate-IsTidy :
      (patch lang : Text) (s : State W) → IsTidy patch s (validate tools patch lang s).1
  unfolding validate validate_go
  validate-IsTidy patch lang s =
      let (created, w) = tools.mkdir_temp s.world in
      ground (arith, with_dir-IsTidy patch created w s)
