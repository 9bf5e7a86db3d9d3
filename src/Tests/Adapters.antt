-- ===== src/Tests/Adapters.antt =====
-- Runs of the vendors' adapters, with clients that give one answer.
use cloud_sre_agent.Prelude.{ℕ, ◌≡◌, refl, [], ◌∷◌, map, some, ok, err, codes, text_eq}
use cloud_sre_agent.Prelude.Json.{object, end}
use cloud_sre_agent.Llm.{Request, system, user}
use cloud_sre_agent.Llm.Adapters.OpenAi
use cloud_sre_agent.Llm.Adapters.OpenAi.{sanitize_schema_name}
use cloud_sre_agent.Llm.Adapters.Ollama
use cloud_sre_agent.Llm.Adapters.Anthropic
use cloud_sre_agent.Llm.Adapters.Gemini
use cloud_sre_agent.Llm.Adapters.Laws.Truncation.{IsUncut, generate-IsUncut}
use cloud_sre_agent.Llm.Adapters.Laws.Gathering.{
  IfOk, anthropic_reads, gemini_reads, parts_of, system_texts, others,
}
use cloud_sre_agent.Llm.Adapters.Laws.Messages.{openai_reads, ollama_reads, messages_kept}

abbrev request : Request
request = record {
  model = [];
  messages =
      record { role = system; content = codes "be brief" }
      ∷ record { role = user; content = codes "why" }
      ∷ [];
  max_tokens = 0;
  schema = some (object end);
  schema_name = codes "triage result";
}

-- An answer that was cut short.
abbrev openai : OpenAi.Provider ℕ
openai = record {
  chat = λ params w. (
    ok (
        some (record {
          model = [];
          choices =
              record { content = codes "{"; refusal = []; finish_reason = codes "length" } ∷ [];
        })),
    w,
  );
  model = codes "gpt";
}

abbrev ollama : Ollama.Provider ℕ
ollama = record {
  chat = λ req w.
      (ok (record { model = []; content = codes "{}"; done_reason = codes "stop" } ∷ []), w);
  model = codes "llama";
}

abbrev anthropic : Anthropic.Provider ℕ
anthropic = record {
  create = λ params w. (
    ok (
        some (record {
          model = [];
          content = record { block_type = codes "text"; text = codes "{}" } ∷ [];
          stop_reason = codes "end_turn";
        })),
    w,
  );
  model = codes "claude";
}

truncated_test : (OpenAi.generate openai request 0).0 ≡ err OpenAi.truncated
unfolding OpenAi.generate OpenAi.call_with OpenAi.to_params OpenAi.to_messages OpenAi.to_message
    OpenAi.after_call OpenAi.to_response text_eq
truncated_test = refl

generate-IsUncut_example :
    IsUncut (codes "length") (OpenAi.generate openai request 0).0
    × IsUncut (codes "length") (Ollama.generate ollama request 0).0
    × IsUncut (codes "max_tokens") (Anthropic.generate anthropic request 0).0
generate-IsUncut_example = generate-IsUncut openai ollama anthropic request 0 refl

messages_kept_example :
    IfOk
      (λ (ps : OpenAi.Params). map openai_reads ps.messages ≡ request.messages)
      (OpenAi.to_params request (codes "m"))
    × IfOk
        (λ (c : Ollama.ChatRequest). map ollama_reads c.messages ≡ request.messages)
        (Ollama.to_chat_request request (codes "m"))
    × IfOk
        (λ (ps : Anthropic.Params).
          (ps.system_blocks ≡ system_texts request.messages)
          × (map anthropic_reads ps.turns ≡ others request.messages))
        (Anthropic.to_params request (codes "m"))
    × IfOk
        (λ (cs : Gemini.Contents).
          (parts_of (Gemini.to_config request cs.instruction).instruction
            ≡ system_texts request.messages)
          × (map gemini_reads cs.turns ≡ others request.messages))
        (Gemini.to_contents request.messages)
messages_kept_example = messages_kept request (codes "m")
