-- ===== src/Pipeline.antt =====
-- internal/pipeline: the triage, analysis and remediation flow. The collaborators behind the ports
-- are parameters over a state `W` of the outside world; each returns a result and the next state.
-- The state also keeps the calls made through the ports, in order, which the source does not store:
-- statements speak of them. Loggers and the flow id of the context are left out.
pub mod Prompt
pub mod Stages
pub mod Process
pub mod Construct
pub mod Laws
use cloud_sre_agent.Prelude.{
  Bool, true, List, [], ◌∷◌, ◌++◌, Option, Result, ok, Text, codes, is_empty, if◌then◌else◌,
}
use cloud_sre_agent.Prelude.Json.{Json}
use cloud_sre_agent.Prelude.Runtime.{Runtime}
use cloud_sre_agent.Domain.{DomainError, TriageResult, Analysis, RemediationPlan}
use cloud_sre_agent.Domain.Levels.{severity_unknown}
use cloud_sre_agent.Llm.{Request, Response}
use cloud_sre_agent.Scm.{Change, Ref}

pub data Stage : Type 0 where
  triage_stage analysis_stage remediation_stage : Stage

pub record ValidationResult : Type 0 where
  pub ok : Bool
  pub diagnostics : List Text

-- The text of an error that a collaborator returns is its value.
pub record Ports (W : Type 0) : Type 0 where
  pub generate : Request → W → Result Text Response × W
  pub sanitize : Text → Text
  -- `validator.Validate(ctx, patch, lang)`
  pub validate : Text → Text → W → Result Text ValidationResult × W
  pub deliver : Change → W → Result Text Ref × W
  -- `llm.SchemaFor` of the stage's type
  pub schema_for : Stage → Result Text Json
  -- the reader of encoding/json
  pub parse_json : Text → Option Json

-- `Pipeline`: its collaborators, and the language handed to the validator.
pub record Pipeline (W : Type 0) : Type 0 where
  pub ports : Ports W
  pub lang : Text

-- `NoopValidator.Validate`
unfoldable pub noop_validate {ℓ} : {W : Type ℓ} → Text → Text → W → Result Text ValidationResult × W
noop_validate patch lang w = (ok (record { ok = true; diagnostics = [] }), w)

-- `WithLang`
unfoldable pub with_lang : {W : Type 0} → Text → Pipeline W → Pipeline W
with_lang lang p = if is_empty lang then p else record p { lang = lang }

pub data Call : Type 0 where
  generated : Request → Call
  validated : Text → Text → Call
  delivered : Change → Call

pub record State (W : Type 0) : Type 0 where
  pub world : W
  pub calls : List Call

pub data PipelineError : Type 0 where
  invalid_incident : DomainError → PipelineError
  schema_failed : Stage → Text → PipelineError
  generate_failed : Stage → Text → PipelineError
  decode_failed : Stage → PipelineError
  remediation_invalid : DomainError → PipelineError
  not_actionable : PipelineError
  validate_failed : Text → PipelineError
  patch_rejected : Text → PipelineError
  deliver_failed : Text → PipelineError

module _ {W : Type 0} (p : Pipeline W) where
  unfoldable pub call_generate : Request → State W → Result Text Response × State W
  call_generate req s =
      let (r, w) = p.ports.generate req s.world in
      (r, record { world = w; calls = s.calls ++ generated req ∷ [] })

  unfoldable pub call_validate : Text → State W → Result Text ValidationResult × State W
  call_validate patch s =
      let (r, w) = p.ports.validate patch p.lang s.world in
      (r, record { world = w; calls = s.calls ++ validated patch p.lang ∷ [] })

  unfoldable pub call_deliver : Change → State W → Result Text Ref × State W
  call_deliver change s =
      let (r, w) = p.ports.deliver change s.world in
      (r, record { world = w; calls = s.calls ++ delivered change ∷ [] })
