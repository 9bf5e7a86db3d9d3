-- ===== src/Llm/Adapters/Laws/Truncation.antt =====
-- Answers to structured requests that the token limit cut short.
use cloud_sre_agent.Prelude.{
  ◌≡◌, ◌≢◌, true, List, [], ◌∷◌, Option, none, some, Result, ok, err, Text, codes, text_eq_iff,
  arith,
}
use cloud_sre_agent.Llm.{Request, Response}
use cloud_sre_agent.Llm.Adapters.{is_some, model_or}
use cloud_sre_agent.Llm.Adapters.OpenAi
use cloud_sre_agent.Llm.Adapters.Ollama
use cloud_sre_agent.Llm.Adapters.Anthropic

-- A result is an error, or an answer that did not end for the reason given.
abbrev pub IsUncut : {E : Type 0} → Text → Result E Response → Type 0
IsUncut reason (ok r) = r.finish_reason ≢ reason
IsUncut reason (err e) = Unit

openai_after_call :
    (r : Result Text (Option OpenAi.Completion)) (m : Text)
    → IsUncut (codes "length") (OpenAi.after_call r m true)
unfolding OpenAi.after_call OpenAi.to_response
openai_after_call (err e) m = tt
openai_after_call (ok none) m = tt
openai_after_call (ok (some c)) m = first c.choices
  where
    first :
        (cs : List OpenAi.Choice)
        → IsUncut
            (codes "length")
            (OpenAi.after_call (ok (some (record { model = c.model; choices = cs }))) m true)
    first [] = tt
    first (choice ∷ _) = ground (arith, text_eq_iff choice.finish_reason (codes "length"))

ollama_after_call :
    (r : Result Text (List Ollama.ChatResponse)) (m : Text)
    → IsUncut (codes "length") (Ollama.after_call r m true)
unfolding Ollama.after_call Ollama.check_final Ollama.to_response
ollama_after_call (err e) m = tt
ollama_after_call (ok rs) m = final (Ollama.final_of rs)
  where
    final :
        (o : Option Ollama.ChatResponse) → IsUncut (codes "length") (Ollama.check_final o m true)
    final none = tt
    final (some r) = ground (arith, text_eq_iff r.done_reason (codes "length"))

anthropic_after_call :
    (r : Result Text (Option Anthropic.Answer)) (m : Text)
    → IsUncut (codes "max_tokens") (Anthropic.after_call r m true)
unfolding Anthropic.after_call Anthropic.to_response
anthropic_after_call (err e) m = tt
anthropic_after_call (ok none) m = tt
anthropic_after_call (ok (some r)) m =
    ground (arith, text_eq_iff r.stop_reason (codes "max_tokens"))

module _ {W : Type 0} where
  openai_call_with :
      (p : OpenAi.Provider W) (m : Text) (r : Result OpenAi.GenerateError OpenAi.Params) (w : W)
      → IsUncut (codes "length") (OpenAi.call_with p m true r w).0
  unfolding OpenAi.call_with
  openai_call_with p m (err e) w = tt
  openai_call_with p m (ok params) w = openai_after_call (p.chat params w).0 m

  openai_generate :
      (p : OpenAi.Provider W) (req : Request) (w : W)
      → is_some req.schema ≡ true
      → IsUncut (codes "length") (OpenAi.generate p req w).0
  unfolding OpenAi.generate
  openai_generate p req w h =
      let m = model_or req.model p.model in
      ground (arith, h, openai_call_with p m (OpenAi.to_params req m) w)

  ollama_call_with :
      (p : Ollama.Provider W) (m : Text) (r : Result Ollama.GenerateError Ollama.ChatRequest)
      (w : W)
      → IsUncut (codes "length") (Ollama.call_with p m true r w).0
  unfolding Ollama.call_with
  ollama_call_with p m (err e) w = tt
  ollama_call_with p m (ok params) w = ollama_after_call (p.chat params w).0 m

  ollama_generate :
      (p : Ollama.Provider W) (req : Request) (w : W)
      → is_some req.schema ≡ true
      → IsUncut (codes "length") (Ollama.generate p req w).0
  unfolding Ollama.generate
  ollama_generate p req w h =
      let m = model_or req.model p.model in
      ground (arith, h, ollama_call_with p m (Ollama.to_chat_request req m) w)

  anthropic_call_with :
      (p : Anthropic.Provider W) (m : Text) (r : Result Anthropic.GenerateError Anthropic.Params)
      (w : W)
      → IsUncut (codes "max_tokens") (Anthropic.call_with p m true r w).0
  unfolding Anthropic.call_with
  anthropic_call_with p m (err e) w = tt
  anthropic_call_with p m (ok params) w = anthropic_after_call (p.create params w).0 m

  anthropic_generate :
      (p : Anthropic.Provider W) (req : Request) (w : W)
      → is_some req.schema ≡ true
      → IsUncut (codes "max_tokens") (Anthropic.generate p req w).0
  unfolding Anthropic.generate
  anthropic_generate p req w h =
      let m = model_or req.model p.model in
      ground (arith, h, anthropic_call_with p m (Anthropic.to_params req m) w)

  -- Whatever the vendor's client returns, the adapters of OpenAI, Ollama and Anthropic do not answer a
  -- request with a schema by a text that the token limit cut short: such an answer is an error, which
  -- the router takes as a reason to go on to the next provider.
  pub generate-IsUncut :
      (openai : OpenAi.Provider W) (ollama : Ollama.Provider W) (anthropic : Anthropic.Provider W)
      (req : Request) (w : W)
      → is_some req.schema ≡ true
      → IsUncut (codes "length") (OpenAi.generate openai req w).0
        × IsUncut (codes "length") (Ollama.generate ollama req w).0
        × IsUncut (codes "max_tokens") (Anthropic.generate anthropic req w).0
  generate-IsUncut openai ollama anthropic req w h = (
    openai_generate openai req w h,
    ollama_generate ollama req w h,
    anthropic_generate anthropic req w h,
  )
