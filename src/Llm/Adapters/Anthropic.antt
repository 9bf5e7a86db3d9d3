-- ===== src/Llm/Adapters/Anthropic.antt =====
-- internal/llm/anthropic/anthropic.go: the adapter of Anthropic's messages. The client's call is that
-- under the resilience policies.
use cloud_sre_agent.Prelude.{
  ℕ, Bool, ◌&&◌, ltb, List, [], ◌∷◌, ◌++◌, Option, none, some, Result, ok, err, ◌>>=◌, Text, codes,
  text_eq, if◌then◌else◌,
}
use cloud_sre_agent.Prelude.Json.{Json, null, object}
use cloud_sre_agent.Llm.{Role, system, user, model, other_role, Message, Request, Response}
use cloud_sre_agent.Llm.Adapters.{model_or, is_some}

abbrev pub default_max_tokens : ℕ
default_max_tokens = 4096

-- `MessageParam` with one block of text.
pub data Turn : Type 0 where
  user_turn assistant_turn : Text → Turn

pub record Params : Type 0 where
  pub model : Text
  pub max_tokens : ℕ
  pub system_blocks : List Text
  pub turns : List Turn
  pub schema : Option Json

pub record Block : Type 0 where
  pub block_type : Text
  pub text : Text

-- The SDK's `Message`.
pub record Answer : Type 0 where
  pub model : Text
  pub content : List Block
  pub stop_reason : Text

pub data GenerateError : Type 0 where
  no_messages : GenerateError
  unknown_role : Text → GenerateError
  invalid_schema : GenerateError
  call_failed : Text → GenerateError
  nil_response : GenerateError
  truncated : GenerateError

pub record Provider (W : Type 0) : Type 0 where
  pub create : Params → W → Result Text (Option Answer) × W
  pub model : Text

-- One round of the loop of `toParams`.
unfoldable pub add_message : Role → Text → Params → Result GenerateError Params
add_message system content ps = ok (record ps { system_blocks = ps.system_blocks ++ content ∷ [] })
add_message user content ps = ok (record ps { turns = ps.turns ++ user_turn content ∷ [] })
add_message model content ps = ok (record ps { turns = ps.turns ++ assistant_turn content ∷ [] })
add_message (other_role r) content ps = err (unknown_role r)

unfoldable pub add_messages : List Message → Params → Result GenerateError Params
unfolding add_message
add_messages [] ps = ok ps
add_messages (m ∷ ms) ps = add_message m.role m.content ps >>= add_messages ms

-- `json.Unmarshal` of the schema into a map.
unfoldable pub with_format : Option Json → Params → Result GenerateError Params
with_format none ps = ok ps
with_format (some null) ps = ok (record ps { schema = some null })
with_format (some (object fs)) ps = ok (record ps { schema = some (object fs) })
with_format (some _) ps = err invalid_schema

unfoldable pub to_params : Request → Text → Result GenerateError Params
unfolding add_messages with_format
to_params req m =
    add_messages req.messages (record {
      model = m;
      max_tokens = if ltb 0 req.max_tokens then req.max_tokens else default_max_tokens;
      system_blocks = [];
      turns = [];
      schema = none;
    })
    >>= with_format req.schema

unfoldable pub text_of : List Block → Text
text_of [] = []
text_of (b ∷ bs) = if text_eq b.block_type (codes "text") then b.text ++ text_of bs else text_of bs

unfoldable pub to_response : Answer → Text → Response
unfolding model_or text_of
to_response r m = record {
  text = text_of r.content;
  model = model_or r.model m;
  finish_reason = r.stop_reason;
}

unfoldable pub after_call :
    Result Text (Option Answer) → Text → Bool → Result GenerateError Response
unfolding to_response
after_call (err e) m has_schema = err (call_failed e)
after_call (ok none) m has_schema = err nil_response
after_call (ok (some r)) m has_schema =
    if has_schema && text_eq r.stop_reason (codes "max_tokens")
    then err truncated
    else ok (to_response r m)

unfoldable pub call_with :
    {W : Type 0}
    → Provider W
    → Text
    → Bool
    → Result GenerateError Params
    → W
    → Result GenerateError Response × W
unfolding after_call
call_with p m has_schema (err e) w = (err e, w)
call_with p m has_schema (ok params) w =
    let (r, w') = p.create params w in (after_call r m has_schema, w')

-- `Generate`
unfoldable pub generate :
    {W : Type 0} → Provider W → Request → W → Result GenerateError Response × W
unfolding call_with to_params model_or
generate p req w =
    let m = model_or req.model p.model in
    let called = call_with p m (is_some req.schema) (to_params req m) w in
    elim req.messages [ [] ↦ (err no_messages, w) | _ ∷ _ ↦ called ]
