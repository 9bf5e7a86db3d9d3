-- ===== src/Llm/Adapters/Gemini.antt =====
-- internal/llm/gemini/gemini.go: the adapter of Google's models. The client's call is that under the
-- resilience policies; `text` of an answer is what its method `Text` gives.
use cloud_sre_agent.Prelude.{
  ℕ, ◌-◌, ◌%◌, ◌^◌, ◌||◌, ltb, List, [], ◌∷◌, ◌++◌, Option, none, some, Result, ok, err, ◌>>=◌,
  Text, codes, is_empty, if◌then◌else◌,
}
use cloud_sre_agent.Prelude.Int.{ℤ, pos, negsuc}
use cloud_sre_agent.Prelude.Json.{Json}
use cloud_sre_agent.Llm.{Role, system, user, model, other_role, Message, Request, Response}
use cloud_sre_agent.Llm.Adapters.{model_or}

pub data Backend : Type 0 where
  backend_gemini_api backend_vertex_ai : Backend
  other_backend : ℤ → Backend

pub record Config : Type 0 where
  pub model : Text
  pub backend : Backend
  pub api_key : Text
  pub project : Text
  pub location : Text

pub data NewError : Type 0 where
  model_required key_required project_required : NewError
  unknown_backend : ℤ → NewError
  client_failed : Text → NewError

-- `genai.ClientConfig`
pub data ClientConfig : Type 0 where
  with_key : Text → ClientConfig
  with_project : Text → Text → ClientConfig

pub data Content : Type 0 where
  user_content model_content : Text → Content

-- What `toContents` has gathered; the parts of the system instruction, if there is one.
pub record Contents : Type 0 where
  pub turns : List Content
  pub instruction : Option (List Text)

-- A limit of zero is none.
pub record GenerateConfig : Type 0 where
  pub instruction : Option (List Text)
  pub max_output_tokens : ℤ
  pub mime_type : Text
  pub response_schema : Option Json

pub record Candidate : Type 0 where
  pub finish_reason : Text

pub record Answer : Type 0 where
  pub text : Text
  pub model_version : Text
  pub candidates : List Candidate

pub data GenerateError : Type 0 where
  no_messages : GenerateError
  unknown_role : Text → GenerateError
  call_failed : Text → GenerateError
  nil_response : GenerateError

pub record Provider (W : Type 0) : Type 0 where
  pub create : Text → List Content → GenerateConfig → W → Result Text (Option Answer) × W
  pub model : Text

unfoldable pub client_config : Config → Result NewError ClientConfig
client_config cfg = elim cfg.backend [
  | backend_gemini_api ↦
      if is_empty cfg.api_key then err key_required else ok (with_key cfg.api_key)
  | backend_vertex_ai ↦
      if is_empty cfg.project || is_empty cfg.location
      then err project_required
      else ok (with_project cfg.project cfg.location)
  | other_backend n ↦ err (unknown_backend n)
]

module _ {W : Type 0} where
  unfoldable pub bind_client :
      Text
      → Result Text (Text → List Content → GenerateConfig → W → Result Text (Option Answer) × W)
      → Result NewError (Provider W)
  bind_client m (err e) = err (client_failed e)
  bind_client m (ok create) = ok (record { create = create; model = m })

  -- `New`; the parameter is `genai.NewClient` with the policies.
  unfoldable pub new :
      (ClientConfig
        → Result Text (Text → List Content → GenerateConfig → W → Result Text (Option Answer) × W))
      → Config
      → Result NewError (Provider W)
  unfolding client_config bind_client
  new connect cfg =
      if is_empty cfg.model
      then err model_required
      else client_config cfg >>= λ cc. bind_client cfg.model (connect cc)

unfoldable pub add_part : Option (List Text) → Text → Option (List Text)
add_part none t = some (t ∷ [])
add_part (some ts) t = some (ts ++ t ∷ [])

-- One round of the loop of `toContents`.
unfoldable pub add_content : Role → Text → Contents → Result GenerateError Contents
unfolding add_part
add_content system t cs = ok (record cs { instruction = add_part cs.instruction t })
add_content user t cs = ok (record cs { turns = cs.turns ++ user_content t ∷ [] })
add_content model t cs = ok (record cs { turns = cs.turns ++ model_content t ∷ [] })
add_content (other_role r) t cs = err (unknown_role r)

unfoldable pub add_contents : List Message → Contents → Result GenerateError Contents
unfolding add_content
add_contents [] cs = ok cs
add_contents (m ∷ ms) cs = add_content m.role m.content cs >>= add_contents ms

-- `toContents`
unfoldable pub to_contents : List Message → Result GenerateError Contents
unfolding add_contents
to_contents ms = add_contents ms (record { turns = []; instruction = none })

-- The conversion `int32(n)`.
unfoldable pub to_int32 : ℕ → ℤ
to_int32 n = let m = n % 2 ^ 32 in if ltb m (2 ^ 31) then pos m else negsuc ((2 ^ 32 - m) - 1)

-- `toConfig`
unfoldable pub to_config : Request → Option (List Text) → GenerateConfig
unfolding to_int32
to_config req instruction = record {
  instruction = instruction;
  max_output_tokens = if ltb 0 req.max_tokens then to_int32 req.max_tokens else pos 0;
  mime_type = elim req.schema [ none ↦ [] | some _ ↦ codes "application/json" ];
  response_schema = req.schema;
}

unfoldable pub finish_reason_of : List Candidate → Text
finish_reason_of [] = []
finish_reason_of (c ∷ _) = c.finish_reason

unfoldable pub to_response : Answer → Text → Response
unfolding model_or finish_reason_of
to_response r m = record {
  text = r.text;
  model = model_or r.model_version m;
  finish_reason = finish_reason_of r.candidates;
}

unfoldable pub after_call : Result Text (Option Answer) → Text → Result GenerateError Response
unfolding to_response
after_call (err e) m = err (call_failed e)
after_call (ok none) m = err nil_response
after_call (ok (some r)) m = ok (to_response r m)

unfoldable pub call_with :
    {W : Type 0}
    → Provider W
    → Request
    → Text
    → Result GenerateError Contents
    → W
    → Result GenerateError Response × W
unfolding after_call to_config
call_with p req m (err e) w = (err e, w)
call_with p req m (ok cs) w =
    let (r, w') = p.create m cs.turns (to_config req cs.instruction) w in (after_call r m, w')

-- `Generate`
unfoldable pub generate :
    {W : Type 0} → Provider W → Request → W → Result GenerateError Response × W
unfolding call_with to_contents model_or
generate p req w =
    let m = model_or req.model p.model in
    let called = call_with p req m (to_contents req.messages) w in
    elim req.messages [ [] ↦ (err no_messages, w) | _ ∷ _ ↦ called ]
