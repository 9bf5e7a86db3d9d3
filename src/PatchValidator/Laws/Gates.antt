-- ===== src/PatchValidator/Laws/Gates.antt =====
-- Which patches the validator accepts.
use cloud_sre_agent.Prelude.{
  ◌≡◌, ◌↔◌, refl, Bool, true, false, ◌&&◌, List, [], ◌∷◌, ◌++◌, none, Result, ok, err, Text,
  is_empty, text_eq, to_lower, trim_space, arith,
}
use mathlib.Core.Path.{subst}
use cloud_sre_agent.Pipeline.{ValidationResult}
use cloud_sre_agent.PatchValidator.{
  Ended, Tools, made, wrote, State, lang_go, patch_file_name, vet_diags, format_diags, no_diags,
  sandbox_env, run_gofmt, mod_init, go_vet, run_vet, vet_gate, run_gates, in_dir, with_dir,
  validate_go, validate,
}

vet_diags_iff : (r : Ended) → (no_diags (vet_diags r) ≡ true) ↔ (r.error ≡ none)
unfolding vet_diags no_diags
vet_diags_iff r = ground arith

format_diags_iff :
    (r : Ended)
    → (no_diags (format_diags r) ≡ true)
      ↔ ((r.error ≡ none) × (is_empty (trim_space r.output) ≡ true))
unfolding format_diags no_diags
format_diags_iff r = ground arith

no_diags-append : (xs ys : List Text) → no_diags (xs ++ ys) ≡ no_diags xs && no_diags ys
unfolding no_diags
no_diags-append [] ys = refl
no_diags-append (x ∷ xs) ys = refl

-- The validator's answer is that the patch is good.
abbrev pub accepts : Result Text ValidationResult → Bool
accepts (ok v) = v.ok
accepts (err e) = false

module _ {W : Type 0} (tools : Tools W) where
  -- Each gate after the syntax gate ran, and found nothing.
  abbrev pub PassesGates : Text → Text → State W → Type 0
  PassesGates dir path s =
      let env = sandbox_env tools dir s.world in
      let (formatted, s1) = run_gofmt tools env path s in
      let (init, s2) = mod_init tools env dir s1 in
      (formatted.error ≡ none)
      × (is_empty (trim_space formatted.output) ≡ true)
      × (init.error ≡ none)
      × ((go_vet tools env dir s2).0.error ≡ none)

  run_vet_iff :
      (env : List Text) (dir : Text) (s : State W)
      → (no_diags (vet_gate (run_vet tools env dir s).0) ≡ true) ↔ (
          ((mod_init tools env dir s).0.error ≡ none)
          × ((go_vet tools env dir (mod_init tools env dir s).1).0.error ≡ none))
  unfolding run_vet vet_gate no_diags
  run_vet_iff env dir s =
      ground (arith, vet_diags_iff (go_vet tools env dir (mod_init tools env dir s).1).0)

  run_gates_iff :
      (dir path : Text) (s : State W)
      → ((run_gates tools dir path s).0.ok ≡ true) ↔ PassesGates dir path s
  unfolding run_gates
  run_gates_iff dir path s =
      let env = sandbox_env tools dir s.world in
      let (formatted, s1) = run_gofmt tools env path s in
      ground (
        arith,
        no_diags-append (format_diags formatted) (vet_gate (run_vet tools env dir s1).0),
        format_diags_iff formatted,
        run_vet_iff env dir s1,
      )

  abbrev pub wrote_to : Text → Text → State W → State W
  wrote_to path patch s = record {
    world = (tools.write_file path patch s.world).1;
    acts = s.acts ++ wrote path patch ∷ [];
  }

  -- The patch was written, and passes the gates.
  abbrev pub PassesIn : Text → Text → State W → Type 0
  PassesIn patch dir s =
      let path = tools.join_path dir patch_file_name in
      ((tools.write_file path patch s.world).0 ≡ none)
      × PassesGates dir path (wrote_to path patch s)

  in_dir_iff :
      (patch dir : Text) (s : State W)
      → (accepts (in_dir tools dir patch s).0 ≡ true) ↔ PassesIn patch dir s
  unfolding in_dir
  in_dir_iff patch dir s =
      let path = tools.join_path dir patch_file_name in
      ground (arith, run_gates_iff dir path (wrote_to path patch s))

  abbrev pub made_in : Text → W → State W → State W
  made_in dir w s = record { world = w; acts = s.acts ++ made dir ∷ [] }

  -- The patch parses, a directory was made, and the patch passes in it.
  abbrev pub IsVetted : Text → State W → Type 0
  IsVetted patch s =
      let (created, w) = tools.mkdir_temp s.world in
      (tools.parse_go patch ≡ none)
      × ((dir : Text) × (created ≡ ok dir) × PassesIn patch dir (made_in dir w s))

  with_dir_iff :
      (patch : Text) (created : Result Text Text) (w : W) (s : State W)
      → (accepts (with_dir tools patch created (record s { world = w })).0 ≡ true)
        ↔ ((dir : Text) × (created ≡ ok dir) × PassesIn patch dir (made_in dir w s))
  unfolding with_dir
  with_dir_iff patch (err e) w s =
      (λ h. absurd (ground (arith, h)), λ (dir, same, _). absurd (ground (arith, same)))
  with_dir_iff patch (ok dir) w s = (
    λ h. (dir, refl, (in_dir_iff patch dir (made_in dir w s)).0 h),
    λ (other, same, passed).
        let eq : other ≡ dir = ground (arith, same) in
        (in_dir_iff patch dir (made_in dir w s)).1
          (subst (λ d. PassesIn patch d (made_in d w s)) eq passed),
  )

  -- `Validate` accepts a patch in Go exactly if it parses, the directory could be made and the patch
  -- written, gofmt ran and printed nothing, and `go mod init` and `go vet` ended without an error: a
  -- gate that cannot run refuses the patch.
  pub validate-accepts_iff :
      (patch lang : Text) (s : State W)
      → text_eq (to_lower (trim_space lang)) lang_go ≡ true
      → (accepts (validate tools patch lang s).0 ≡ true) ↔ IsVetted patch s
  unfolding validate validate_go
  validate-accepts_iff patch lang s go =
      let (created, w) = tools.mkdir_temp s.world in
      ground (arith, go, with_dir_iff patch created w s)
