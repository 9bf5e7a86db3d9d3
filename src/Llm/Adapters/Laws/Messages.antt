-- ===== src/Llm/Adapters/Laws/Messages.antt =====
-- The messages that the adapters hand to the vendors.
use cloud_sre_agent.Prelude.{◌≡◌, refl, List, [], ◌∷◌, map, Text, codes, text_eq, if◌then◌else◌}
use cloud_sre_agent.Llm.{Request, Role, system, user, model, other_role, Message}
use cloud_sre_agent.Llm.Adapters.OpenAi
use cloud_sre_agent.Llm.Adapters.OpenAi.{system_message, user_message, assistant_message}
use cloud_sre_agent.Llm.Adapters.Ollama
use cloud_sre_agent.Llm.Adapters.Anthropic
use cloud_sre_agent.Llm.Adapters.Gemini
use cloud_sre_agent.Llm.Adapters.Gemini.{user_content, model_content}
use cloud_sre_agent.Llm.Adapters.Anthropic.{user_turn, assistant_turn}
use cloud_sre_agent.Llm.Adapters.Laws.Gathering.{
  system_texts, others, IfOk, bind-IfOk, anthropic_reads, gemini_reads, parts_of,
  add_messages-Gathers, add_contents-Gathers, with_format-keeps,
}

-- What a vendor's message says in the words of the port.
abbrev pub openai_reads : OpenAi.ChatMessage → Message
openai_reads (system_message t) = record { role = system; content = t }
openai_reads (user_message t) = record { role = user; content = t }
openai_reads (assistant_message t) = record { role = model; content = t }

abbrev pub ollama_role : Text → Role
ollama_role t =
    if text_eq t (codes "system")
    then system
    else if text_eq t (codes "user")
    then user
    else if text_eq t (codes "assistant")
    then model
    else other_role t

abbrev pub ollama_reads : Ollama.ChatMessage → Message
ollama_reads m = record { role = ollama_role m.role; content = m.content }

openai_to_message :
    (r : Role) (t : Text)
    → IfOk (λ c. openai_reads c ≡ record { role = r; content = t }) (OpenAi.to_message r t)
unfolding OpenAi.to_message
openai_to_message system t = refl
openai_to_message user t = refl
openai_to_message model t = refl
openai_to_message (other_role r) t = tt

openai_to_messages :
    (ms : List Message) → IfOk (λ cs. map openai_reads cs ≡ ms) (OpenAi.to_messages ms)
unfolding OpenAi.to_messages
openai_to_messages [] = refl
openai_to_messages (m ∷ ms) =
    bind-IfOk _ _ (OpenAi.to_message m.role m.content) _ (openai_to_message m.role m.content)
      (λ c e.
        bind-IfOk _ _ (OpenAi.to_messages ms) _ (openai_to_messages ms) (λ cs es. rw (e, es) refl))

ollama_role_name : (r : Role) → IfOk (λ t. ollama_role t ≡ r) (Ollama.role_name r)
unfolding Ollama.role_name text_eq
ollama_role_name system = refl
ollama_role_name user = refl
ollama_role_name model = refl
ollama_role_name (other_role r) = tt

ollama_to_messages :
    (ms : List Message) → IfOk (λ cs. map ollama_reads cs ≡ ms) (Ollama.to_messages ms)
unfolding Ollama.to_messages
ollama_to_messages [] = refl
ollama_to_messages (m ∷ ms) =
    bind-IfOk _ _ (Ollama.role_name m.role) _ (ollama_role_name m.role) (λ t e.
      bind-IfOk _ _ (Ollama.to_messages ms) _ (ollama_to_messages ms) (λ cs es. rw (e, es) refl))

-- Where the translation of a request succeeds, the messages that are given to OpenAI and Ollama are,
-- read back, those of the request in their order. Anthropic and Gemini are given two lists apart: the
-- texts of the request's system messages in their order, as the system prompt of the parameters and as
-- the instruction of the configuration, and its other messages in theirs, as the turns.
pub messages_kept :
    (req : Request) (m : Text)
    → IfOk (λ ps. map openai_reads ps.messages ≡ req.messages) (OpenAi.to_params req m)
      × IfOk (λ c. map ollama_reads c.messages ≡ req.messages) (Ollama.to_chat_request req m)
      × IfOk
          (λ ps.
            (ps.system_blocks ≡ system_texts req.messages)
            × (map anthropic_reads ps.turns ≡ others req.messages))
          (Anthropic.to_params req m)
      × IfOk
          (λ cs.
            (parts_of (Gemini.to_config req cs.instruction).instruction ≡ system_texts req.messages)
            × (map gemini_reads cs.turns ≡ others req.messages))
          (Gemini.to_contents req.messages)
unfolding Gemini.to_contents Gemini.to_config OpenAi.to_params Ollama.to_chat_request
    Anthropic.to_params
messages_kept req m = (
  bind-IfOk _ _ (OpenAi.to_messages req.messages) _ (openai_to_messages req.messages) (λ cs e. e),
  bind-IfOk _ _ (Ollama.to_messages req.messages) _ (ollama_to_messages req.messages) (λ cs e. e),
  bind-IfOk _ _ (Anthropic.add_messages req.messages _) _ (add_messages-Gathers req.messages _)
      (λ ps g.
        with_format-keeps req.schema ps
          (λ blocks turns.
            (blocks ≡ system_texts req.messages)
            × (map anthropic_reads turns ≡ others req.messages))
          g),
  add_contents-Gathers req.messages _,
)
