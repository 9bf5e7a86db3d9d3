-- ===== src/Sanitizer/Laws/Events.antt =====
-- internal/security/sanitizer.go: `SanitizeEvent`, and the prompts of internal/pipeline/pipeline.go that
-- pass through the sanitizer.
use mathlib.Core.Path.{subst}
use cloud_sre_agent.Prelude.{◌≡◌, refl, sym, ap, ◌∙◌, [], ◌∷◌, List, Text, All, All-map}
use cloud_sre_agent.Prelude.Runtime.{Runtime}
use cloud_sre_agent.Domain.{LogEvent, Labels, Incident}
use cloud_sre_agent.Llm.{Message}
use cloud_sre_agent.Pipeline.{Pipeline, Call, generated, validated, delivered, State}
use cloud_sre_agent.Pipeline.Process.{process}
use cloud_sre_agent.Pipeline.Laws.Sanitized.{IsSanitized, process-IsSanitized}
use cloud_sre_agent.Sanitizer.{new_with_fields, sanitize, sanitize_labels, sanitize_event}
use cloud_sre_agent.Sanitizer.Laws.Passes.{IsRedacted, sanitize-IsRedacted}

-- The labels have the same keys in the same order, and redacted values.
pub AreRedacted : List Text → Labels → Labels → Type 0
AreRedacted extra [] [] = Unit
AreRedacted extra [] (l ∷ ls) = ⊥
AreRedacted extra (l ∷ ls) [] = ⊥
AreRedacted extra ((k, v) ∷ ls) ((k', v') ∷ ls') =
    (k ≡ k') × IsRedacted extra v v' × AreRedacted extra ls ls'

sanitize_labels-AreRedacted :
    (extra : List Text) (ls : Labels)
    → AreRedacted extra ls (sanitize_labels (new_with_fields extra) ls)
unfolding sanitize_labels AreRedacted
sanitize_labels-AreRedacted extra [] = tt
sanitize_labels-AreRedacted extra ((k, v) ∷ ls) =
    (refl, sanitize-IsRedacted extra v, sanitize_labels-AreRedacted extra ls)

-- `SanitizeEvent`, with any further field names, keeps the id, the timestamp, the severity and the
-- labels' keys in their order, and gives for the message, the source and each label's value what
-- the passes of the rules and of the fields make of it.
pub sanitize_event-AreRedacted :
    (extra : List Text) (e : LogEvent)
    → ((sanitize_event (new_with_fields extra) e).id ≡ e.id)
      × ((sanitize_event (new_with_fields extra) e).timestamp ≡ e.timestamp)
      × ((sanitize_event (new_with_fields extra) e).severity ≡ e.severity)
      × IsRedacted extra e.message (sanitize_event (new_with_fields extra) e).message
      × IsRedacted extra e.source (sanitize_event (new_with_fields extra) e).source
      × AreRedacted extra e.labels (sanitize_event (new_with_fields extra) e).labels
unfolding sanitize_event
sanitize_event-AreRedacted extra e = (
  refl,
  refl,
  refl,
  sanitize-IsRedacted extra e.message,
  sanitize-IsRedacted extra e.source,
  sanitize_labels-AreRedacted extra e.labels,
)

-- Each message of a request is a text that the sanitizer has redacted.
abbrev pub HasRedacted : List Text → Call → Type 0
HasRedacted extra (generated req) =
    All (λ (m : Message). (raw : Text) × IsRedacted extra raw m.content) req.messages
HasRedacted extra (validated patch lang) = Unit
HasRedacted extra (delivered change) = Unit

module _ {W : Type 0} (p : Pipeline W) (extra : List Text)
    (gate : p.ports.sanitize ≡ sanitize (new_with_fields extra)) where
  IsSanitized-HasRedacted : (c : Call) → IsSanitized p c → HasRedacted extra c
  IsSanitized-HasRedacted (generated req) h =
      All-map _ _ req.messages
        (λ m (raw, eq). (
          raw,
          subst (IsRedacted extra raw) (sym (eq ∙ ap (λ f. f raw) gate))
              (sanitize-IsRedacted extra raw),
        ))
        h
  IsSanitized-HasRedacted (validated patch lang) h = tt
  IsSanitized-HasRedacted (delivered change) h = tt

-- A pipeline whose sanitizer is that of `NewWithFields`, with any further names: in every request
-- that `Process` sends to the provider, on any path, each message is what the passes of the rules
-- and of the fields make of some text, if no calls were made before.
pub process-HasRedacted :
    (rt : Runtime) {W : Type 0} (p : Pipeline W) (extra : List Text) (inc : Incident rt)
    (s : State W)
    → p.ports.sanitize ≡ sanitize (new_with_fields extra)
    → s.calls ≡ []
    → All (HasRedacted extra) (process rt p inc s).1.calls
process-HasRedacted rt p extra inc s gate fresh =
    All-map (IsSanitized p) (HasRedacted extra) (process rt p inc s).1.calls
      (IsSanitized-HasRedacted p extra gate) (process-IsSanitized rt p inc s (rw fresh tt))
