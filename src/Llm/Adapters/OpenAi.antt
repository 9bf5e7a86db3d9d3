-- ===== src/Llm/Adapters/OpenAi.antt =====
-- internal/llm/openai/openai.go: the adapter of OpenAI's chat completions. The regular expression for
-- the name of a schema is read on names in ASCII.
use cloud_sre_agent.Prelude.{
  ℕ, Bool, ◌&&◌, ◌||◌, not, ltb, leb, ◌==◌, List, [], ◌∷◌, map, take, Option, none, some, Result,
  ok, err, ◌>>=◌, Text, codes, text_eq, is_empty, if◌then◌else◌,
}
use cloud_sre_agent.Prelude.Json.{Json}
use cloud_sre_agent.Llm.{Role, system, user, model, other_role, Message, Request, Response}
use cloud_sre_agent.Llm.Adapters.{model_or, is_some}

abbrev pub default_schema_name : Text
default_schema_name = codes "response"

abbrev pub finish_reason_length : Text
finish_reason_length = codes "length"

-- The bytes that `schemaNameInvalid` does not match.
unfoldable pub is_name_byte : ℕ → Bool
is_name_byte c =
    (leb 97 c && leb c 122)
    || (leb 65 c && leb c 90)
    || (leb 48 c && leb c 57)
    || (c == 95)
    || (c == 45)

unfoldable pub clean_byte : ℕ → ℕ
unfolding is_name_byte
clean_byte c = if is_name_byte c then c else 95

-- `sanitizeSchemaName`
unfoldable pub sanitize_schema_name : Text → Text
unfolding clean_byte
sanitize_schema_name name =
    if is_empty name
    then default_schema_name
    else (let cleaned = take 64 (map clean_byte name) in
        if is_empty cleaned then default_schema_name else cleaned)

pub record Config : Type 0 where
  pub model : Text
  pub api_key : Text
  pub base_url : Text

-- `ChatCompletionMessageParamUnion`
pub data ChatMessage : Type 0 where
  system_message user_message assistant_message : Text → ChatMessage

-- The name and the schema of the strict response format.
pub record Format : Type 0 where
  pub name : Text
  pub schema : Json

pub record Params : Type 0 where
  pub model : Text
  pub messages : List ChatMessage
  pub max_completion_tokens : Option ℕ
  pub response_format : Option Format

pub record Choice : Type 0 where
  pub content : Text
  pub refusal : Text
  pub finish_reason : Text

pub record Completion : Type 0 where
  pub model : Text
  pub choices : List Choice

pub data GenerateError : Type 0 where
  no_messages : GenerateError
  unknown_role : Text → GenerateError
  call_failed : Text → GenerateError
  no_choices : GenerateError
  refused : GenerateError
  truncated : GenerateError

pub data NewError : Type 0 where
  model_required key_required : NewError

-- `Provider`: the client, and the default model.
pub record Provider (W : Type 0) : Type 0 where
  pub chat : Params → W → Result Text (Option Completion) × W
  pub model : Text

-- `New`; the parameter makes the client.
unfoldable pub new :
    {W : Type 0}
    → (Config → Params → W → Result Text (Option Completion) × W)
    → Config
    → Result NewError (Provider W)
new client cfg =
    if is_empty cfg.model
    then err model_required
    else if is_empty cfg.api_key
    then err key_required
    else ok (record { chat = client cfg; model = cfg.model })

unfoldable pub to_message : Role → Text → Result GenerateError ChatMessage
to_message system content = ok (system_message content)
to_message user content = ok (user_message content)
to_message model content = ok (assistant_message content)
to_message (other_role r) content = err (unknown_role r)

unfoldable pub to_messages : List Message → Result GenerateError (List ChatMessage)
unfolding to_message
to_messages [] = ok []
to_messages (m ∷ ms) = to_message m.role m.content >>= λ t. to_messages ms >>= λ ts. ok (t ∷ ts)

unfoldable pub format_of : Option Json → Text → Option Format
unfolding sanitize_schema_name
format_of none name = none
format_of (some schema) name = some (record { name = sanitize_schema_name name; schema = schema })

unfoldable pub to_params : Request → Text → Result GenerateError Params
unfolding to_messages format_of
to_params req m = to_messages req.messages >>= λ messages. ok (record {
  model = m;
  messages = messages;
  max_completion_tokens = if ltb 0 req.max_tokens then some req.max_tokens else none;
  response_format = format_of req.schema req.schema_name;
})

-- `toResponse` of the first choice.
unfoldable pub to_response : Text → Choice → Text → Bool → Result GenerateError Response
unfolding model_or
to_response answered choice m has_schema =
    if is_empty choice.content && not (is_empty choice.refusal)
    then err refused
    else if has_schema && text_eq choice.finish_reason finish_reason_length
    then err truncated
    else ok (record {
      text = choice.content;
      model = model_or answered m;
      finish_reason = choice.finish_reason;
    })

-- What follows the call of the client.
unfoldable pub after_call :
    Result Text (Option Completion) → Text → Bool → Result GenerateError Response
unfolding to_response
after_call (err e) m has_schema = err (call_failed e)
after_call (ok none) m has_schema = err no_choices
after_call (ok (some c)) m has_schema = first c.choices
  where
    first : List Choice → Result GenerateError Response
    first [] = err no_choices
    first (choice ∷ _) = to_response c.model choice m has_schema

unfoldable pub call_with :
    {W : Type 0}
    → Provider W
    → Text
    → Bool
    → Result GenerateError Params
    → W
    → Result GenerateError Response × W
unfolding after_call
call_with p m has_schema (err e) w = (err e, w)
call_with p m has_schema (ok params) w =
    let (r, w') = p.chat params w in (after_call r m has_schema, w')

-- `Generate`
unfoldable pub generate :
    {W : Type 0} → Provider W → Request → W → Result GenerateError Response × W
unfolding call_with to_params model_or
generate p req w =
    let m = model_or req.model p.model in
    let called = call_with p m (is_some req.schema) (to_params req m) w in
    elim req.messages [ [] ↦ (err no_messages, w) | _ ∷ _ ↦ called ]
