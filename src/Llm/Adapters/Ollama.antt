-- ===== src/Llm/Adapters/Ollama.antt =====
-- internal/llm/ollama/ollama.go: the adapter of an Ollama server. What the client's `Chat` hands to its
-- callback, in order, is the list that the call returns.
use cloud_sre_agent.Prelude.{
  ℕ, Bool, false, ◌&&◌, ltb, List, [], ◌∷◌, Option, none, some, Result, ok, err, ◌>>=◌, Text, codes,
  text_eq, is_empty, if◌then◌else◌,
}
use cloud_sre_agent.Prelude.Json.{Json}
use cloud_sre_agent.Llm.{Role, system, user, model, other_role, Message, Request, Response}
use cloud_sre_agent.Llm.Adapters.{model_or, is_some}

-- `api.Message`
pub record ChatMessage : Type 0 where
  pub role : Text
  pub content : Text

pub record ChatRequest : Type 0 where
  pub model : Text
  pub messages : List ChatMessage
  pub stream : Bool
  pub num_predict : Option ℕ
  pub format : Option Json

pub record ChatResponse : Type 0 where
  pub model : Text
  pub content : Text
  pub done_reason : Text

pub data GenerateError : Type 0 where
  no_messages : GenerateError
  unknown_role : Text → GenerateError
  call_failed : Text → GenerateError
  no_response : GenerateError
  truncated : GenerateError
  empty_response : GenerateError

pub record Provider (W : Type 0) : Type 0 where
  pub chat : ChatRequest → W → Result Text (List ChatResponse) × W
  pub model : Text

unfoldable pub role_name : Role → Result GenerateError Text
role_name system = ok (codes "system")
role_name user = ok (codes "user")
role_name model = ok (codes "assistant")
role_name (other_role r) = err (unknown_role r)

unfoldable pub to_messages : List Message → Result GenerateError (List ChatMessage)
unfolding role_name
to_messages [] = ok []
to_messages (m ∷ ms) = role_name m.role >>= λ role.
    to_messages ms >>= λ ts. ok (record { role = role; content = m.content } ∷ ts)

unfoldable pub to_chat_request : Request → Text → Result GenerateError ChatRequest
unfolding to_messages
to_chat_request req m = to_messages req.messages >>= λ messages. ok (record {
  model = m;
  messages = messages;
  stream = false;
  num_predict = if ltb 0 req.max_tokens then some req.max_tokens else none;
  format = req.schema;
})

unfoldable pub to_response : ChatResponse → Text → Response
unfolding model_or
to_response r m = record {
  text = r.content;
  model = model_or r.model m;
  finish_reason = r.done_reason;
}

-- The last response that the callback has received.
unfoldable pub final_of : List ChatResponse → Option ChatResponse
final_of [] = none
final_of (r ∷ []) = some r
final_of (r ∷ s ∷ rs) = final_of (s ∷ rs)

unfoldable pub check_final : Option ChatResponse → Text → Bool → Result GenerateError Response
unfolding to_response
check_final none m has_schema = err no_response
check_final (some r) m has_schema =
    if has_schema && text_eq r.done_reason (codes "length")
    then err truncated
    else if has_schema && is_empty r.content
    then err empty_response
    else ok (to_response r m)

unfoldable pub after_call :
    Result Text (List ChatResponse) → Text → Bool → Result GenerateError Response
unfolding check_final final_of
after_call (err e) m has_schema = err (call_failed e)
after_call (ok rs) m has_schema = check_final (final_of rs) m has_schema

unfoldable pub call_with :
    {W : Type 0}
    → Provider W
    → Text
    → Bool
    → Result GenerateError ChatRequest
    → W
    → Result GenerateError Response × W
unfolding after_call
call_with p m has_schema (err e) w = (err e, w)
call_with p m has_schema (ok req) w = let (r, w') = p.chat req w in (after_call r m has_schema, w')

-- `Generate`
unfoldable pub generate :
    {W : Type 0} → Provider W → Request → W → Result GenerateError Response × W
unfolding call_with to_chat_request model_or
generate p req w =
    let m = model_or req.model p.model in
    let called = call_with p m (is_some req.schema) (to_chat_request req m) w in
    elim req.messages [ [] ↦ (err no_messages, w) | _ ∷ _ ↦ called ]
