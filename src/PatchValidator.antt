-- ===== src/PatchValidator.antt =====
-- internal/validate/validate.go: the validator of Go patches. The parser, the file system and the
-- subprocesses are the parameter `Tools` over a state `W` of the outside world; the state also keeps
-- what was done to the outside world, in order. Logging is left out.
pub mod Laws
use mathlib.Core.List.{reverse}
use cloud_sre_agent.Prelude.{
  Bool, true, false, not, ◌||◌, List, [], ◌∷◌, ◌++◌, map, Option, none, some, Result, ok, err, Text,
  codes, is_empty, text_eq, to_lower, trim_space, has_prefix, if◌then◌else◌,
}
use cloud_sre_agent.Pipeline.{ValidationResult}
use cloud_sre_agent.Scm.Naming.{split_lines}

abbrev pub lang_go : Text
lang_go = codes "go"

abbrev pub patch_file_name : Text
patch_file_name = codes "patch.go"

-- An `exec.Cmd`; `combined` is the choice of `CombinedOutput` over `Output`.
pub record Command : Type 0 where
  pub program : Text
  pub args : List Text
  pub dir : Text
  pub env : List Text
  pub combined : Bool

-- How a command ended, by the text of its error, and what it printed.
pub record Ended : Type 0 where
  pub error : Option Text
  pub output : Text

pub record Tools (W : Type 0) : Type 0 where
  -- the error of `parser.ParseFile`
  pub parse_go : Text → Option Text
  pub mkdir_temp : W → Result Text Text × W
  pub write_file : Text → Text → W → Option Text × W
  pub remove_all : Text → W → W
  pub run_command : Command → W → Ended × W
  pub getenv : Text → W → Text
  -- `filepath.Join` of two names, and the verb %q
  pub join_path : Text → Text → Text
  pub quote : Text → Text

pub data Act : Type 0 where
  made : Text → Act
  wrote : Text → Text → Act
  ran : Command → Act
  removed : Text → Act

pub record State (W : Type 0) : Type 0 where
  pub world : W
  pub acts : List Act

-- The diagnostics of an output of `go vet`.
unfoldable pub vet_lines : List Text → List Text
vet_lines [] = []
vet_lines (l ∷ ls) =
    let line = trim_space l in
    let rest = vet_lines ls in
    if is_empty line || has_prefix line (codes "#") then rest else (codes "vet: " ++ line) ∷ rest

-- What `runVet` returns after `go vet` has ended.
unfoldable pub vet_diags : Ended → List Text
unfolding vet_lines split_lines
vet_diags r = elim r.error [
  | none ↦ []
  | some e ↦ elim (vet_lines (split_lines (trim_space r.output))) [
    | [] ↦ (codes "vet: failed (" ++ (e ++ codes ")")) ∷ []
    | d ∷ ds ↦ d ∷ ds
  ]
]

-- The diagnostics of the format gate.
unfoldable pub format_diags : Ended → List Text
format_diags r = elim r.error [
  | some e ↦ (codes "gofmt: gate could not run (" ++ (e ++ codes ")")) ∷ []
  | none ↦
      if is_empty (trim_space r.output)
      then []
      else codes "format: file is not gofmt-formatted" ∷ []
]

unfoldable pub vet_gate : Result Text (List Text) → List Text
vet_gate (err e) = (codes "vet: gate could not run (" ++ (e ++ codes ")")) ∷ []
vet_gate (ok diags) = diags

unfoldable pub no_diags : List Text → Bool
no_diags [] = true
no_diags (_ ∷ _) = false

module _ {W : Type 0} (tools : Tools W) where
  unfoldable pub sandbox_env : Text → W → List Text
  sandbox_env dir w =
      (codes "PATH=" ++ tools.getenv (codes "PATH") w)
      ∷ (codes "HOME=" ++ dir)
      ∷ (codes "GOPATH=" ++ tools.join_path dir (codes "gopath"))
      ∷ (codes "GOCACHE=" ++ tools.join_path dir (codes "gocache"))
      ∷ codes "GOFLAGS=-mod=mod"
      ∷ codes "GOPROXY=off"
      ∷ codes "GOTOOLCHAIN=local"
      ∷ codes "CGO_ENABLED=0"
      ∷ codes "GONOSUMCHECK=1"
      ∷ codes "GOSUMDB=off"
      ∷ []

  unfoldable pub call : Command → State W → Ended × State W
  call c s =
      let (r, w) = tools.run_command c s.world in
      (r, record { world = w; acts = s.acts ++ ran c ∷ [] })

  -- `runGofmt`
  unfoldable pub run_gofmt : List Text → Text → State W → Ended × State W
  unfolding call
  run_gofmt env file s =
      call
        (record {
          program = codes "gofmt";
          args = codes "-l" ∷ file ∷ [];
          dir = [];
          env = env;
          combined = false;
        })
        s

  unfoldable pub mod_init : List Text → Text → State W → Ended × State W
  unfolding call
  mod_init env dir s =
      call
        (record {
          program = codes "go";
          args = codes "mod" ∷ codes "init" ∷ codes "srevalidate" ∷ [];
          dir = dir;
          env = env;
          combined = true;
        })
        s

  unfoldable pub go_vet : List Text → Text → State W → Ended × State W
  unfolding call
  go_vet env dir s =
      call
        (record {
          program = codes "go";
          args = codes "vet" ∷ codes "./..." ∷ [];
          dir = dir;
          env = env;
          combined = true;
        })
        s

  -- `runVet`
  unfoldable pub run_vet : List Text → Text → State W → Result Text (List Text) × State W
  unfolding mod_init go_vet vet_diags
  run_vet env dir s =
      let (init, s') = mod_init env dir s in
      let (vetted, s'') = go_vet env dir s' in
      elim init.error [
        | some e ↦
            (err (codes "go mod init: " ++ (e ++ (codes ": " ++ trim_space init.output))), s')
        | none ↦ (ok (vet_diags vetted), s'')
      ]

  -- The gates after the syntax gate, in the directory that holds the patch.
  unfoldable pub run_gates : Text → Text → State W → ValidationResult × State W
  unfolding run_gofmt run_vet format_diags vet_gate sandbox_env no_diags
  run_gates dir path s =
      let env = sandbox_env dir s.world in
      let (formatted, s') = run_gofmt env path s in
      let (vetted, s'') = run_vet env dir s' in
      let diags = format_diags formatted ++ vet_gate vetted in
      (record { ok = no_diags diags; diagnostics = diags }, s'')

  unfoldable pub in_dir : Text → Text → State W → Result Text ValidationResult × State W
  unfolding run_gates
  in_dir dir patch s =
      let path = tools.join_path dir patch_file_name in
      let (failed, w) = tools.write_file path patch s.world in
      let s' : State W = record { world = w; acts = s.acts ++ wrote path patch ∷ [] } in
      let (result, s'') = run_gates dir path s' in
      elim failed [
        | some e ↦ (err (codes "validate: write patch file: " ++ e), s')
        | none ↦ (ok result, s'')
      ]

  -- The deferred `os.RemoveAll`.
  unfoldable pub clean_up : Text → State W → State W
  clean_up dir s = record {
    world = tools.remove_all dir s.world;
    acts = s.acts ++ removed dir ∷ [];
  }

  unfoldable pub with_dir :
      Text → Result Text Text → State W → Result Text ValidationResult × State W
  unfolding in_dir clean_up
  with_dir patch (err e) s = (err (codes "validate: create temp dir: " ++ e), s)
  with_dir patch (ok dir) s =
      let (result, s') = in_dir dir patch (record s { acts = s.acts ++ made dir ∷ [] }) in
      (result, clean_up dir s')

  unfoldable pub validate_go : Text → State W → Result Text ValidationResult × State W
  unfolding with_dir
  validate_go patch s =
      let (created, w) = tools.mkdir_temp s.world in
      let gated = with_dir patch created (record s { world = w }) in
      elim (tools.parse_go patch) [
        | some e ↦ (ok (record { ok = false; diagnostics = (codes "syntax: " ++ e) ∷ [] }), s)
        | none ↦ gated
      ]

  -- `Validate`
  unfoldable pub validate : Text → Text → State W → Result Text ValidationResult × State W
  unfolding validate_go
  validate patch lang s =
      let checked = validate_go patch s in
      if not (text_eq (to_lower (trim_space lang)) lang_go)
      then (
        ok (record {
          ok = true;
          diagnostics =
              (codes "validation skipped: unsupported language " ++ tools.quote lang) ∷ [];
        }),
        s,
      )
      else checked
