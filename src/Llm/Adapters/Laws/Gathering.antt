-- ===== src/Llm/Adapters/Laws/Gathering.antt =====
-- Reading back the turns that are gathered for Anthropic and for Gemini.
use cloud_sre_agent.Prelude.{
  ◌≡◌, refl, ap, sym, ◌∙◌, List, [], ◌∷◌, ◌++◌, map, Option, none, some, Result, ok, err, ◌>>=◌,
  Text,
}
use mathlib.Core.List.{append_assoc, append-nil}
use cloud_sre_agent.Prelude.Json.{Json, null, boolean, number, string, array, object}
use cloud_sre_agent.Llm.{Role, system, user, model, other_role, Message}
use cloud_sre_agent.Llm.Adapters.Anthropic
use cloud_sre_agent.Llm.Adapters.Gemini
use cloud_sre_agent.Llm.Adapters.Gemini.{user_content, model_content}
use cloud_sre_agent.Llm.Adapters.Anthropic.{user_turn, assistant_turn}

abbrev pub anthropic_reads : Anthropic.Turn → Message
anthropic_reads (user_turn t) = record { role = user; content = t }
anthropic_reads (assistant_turn t) = record { role = model; content = t }

-- The texts of the system messages, and the other messages.
abbrev pub system_texts : List Message → List Text
system_texts [] = []
system_texts (m ∷ ms) =
    let rest = system_texts ms in elim m.role [ system ↦ m.content ∷ rest | _ ↦ rest ]

abbrev pub others : List Message → List Message
others [] = []
others (m ∷ ms) = let rest = others ms in elim m.role [ system ↦ rest | _ ↦ m ∷ rest ]

-- A result with a property, or an error.
abbrev pub IfOk : {E A : Type 0} → (A → Type 0) → Result E A → Type 0
IfOk P (ok a) = P a
IfOk P (err e) = Unit

pub bind-IfOk :
    {E A B : Type 0} (P : A → Type 0) (Q : B → Type 0) (r : Result E A) (f : A → Result E B)
    → IfOk P r
    → ((a : A) → P a → IfOk Q (f a))
    → IfOk Q (r >>= f)
bind-IfOk P Q (ok a) f p h = h a p
bind-IfOk P Q (err e) f p h = tt

pub IfOk-map :
    {E A : Type 0} (P Q : A → Type 0) (r : Result E A) → IfOk P r → ((a : A) → P a → Q a) → IfOk Q r
IfOk-map P Q (ok a) p h = h a p
IfOk-map P Q (err e) p h = tt

pub map-append :
    {A B : Type 0} (f : A → B) (xs ys : List A) → map f (xs ++ ys) ≡ map f xs ++ map f ys
map-append f [] ys = refl
map-append f (x ∷ xs) ys = ap (λ zs. f x ∷ zs) (map-append f xs ys)

-- The texts of system messages, and the other messages, that have come to those gathered before.
abbrev pub Gathers : List Text × List Message → List Message → List Text × List Message → Type 0
Gathers (texts, turns) ms (texts', turns') =
    (texts' ≡ texts ++ system_texts ms) × (turns' ≡ turns ++ others ms)

abbrev pub anthropic_view : Anthropic.Params → List Text × List Message
anthropic_view ps = (ps.system_blocks, map anthropic_reads ps.turns)

abbrev pub gemini_reads : Gemini.Content → Message
gemini_reads (user_content t) = record { role = user; content = t }
gemini_reads (model_content t) = record { role = model; content = t }

abbrev pub parts_of : Option (List Text) → List Text
parts_of none = []
parts_of (some ts) = ts

abbrev pub gemini_view : Gemini.Contents → List Text × List Message
gemini_view cs = (parts_of cs.instruction, map gemini_reads cs.turns)

add_message-Gathers :
    (r : Role) (t : Text) (ps : Anthropic.Params)
    → IfOk
        (λ now.
          Gathers (anthropic_view ps) (record { role = r; content = t } ∷ []) (anthropic_view now))
        (Anthropic.add_message r t ps)
unfolding Anthropic.add_message
add_message-Gathers system t ps = (refl, sym (append-nil (map anthropic_reads ps.turns)))
add_message-Gathers user t ps =
    (sym (append-nil ps.system_blocks), map-append anthropic_reads ps.turns (user_turn t ∷ []))
add_message-Gathers model t ps =
    (sym (append-nil ps.system_blocks), map-append anthropic_reads ps.turns (assistant_turn t ∷ []))
add_message-Gathers (other_role r) t ps = tt

system_texts-cons :
    (r : Role) (t : Text) (ms : List Message)
    → let m : Message = record { role = r; content = t } in
      (system_texts (m ∷ ms) ≡ system_texts (m ∷ []) ++ system_texts ms)
      × (others (m ∷ ms) ≡ others (m ∷ []) ++ others ms)
system_texts-cons system t ms = (refl, refl)
system_texts-cons user t ms = (refl, refl)
system_texts-cons model t ms = (refl, refl)
system_texts-cons (other_role r) t ms = (refl, refl)

Gathers-cons :
    (m : Message) (ms : List Message) (a b c : List Text × List Message)
    → Gathers a (m ∷ []) b
    → Gathers b ms c
    → Gathers a (m ∷ ms) c
Gathers-cons m ms (texts, turns) b c (s, t) (s', t') =
    let (es, et) = system_texts-cons m.role m.content ms in
    (
      s'
          ∙ ap (λ xs. xs ++ system_texts ms) s
          ∙ append_assoc texts (system_texts (m ∷ [])) (system_texts ms)
          ∙ ap (λ xs. texts ++ xs) (sym es),
      t'
          ∙ ap (λ xs. xs ++ others ms) t
          ∙ append_assoc turns (others (m ∷ [])) (others ms)
          ∙ ap (λ xs. turns ++ xs) (sym et),
    )

Gathers-nil : (a : List Text × List Message) → Gathers a [] a
Gathers-nil (texts, turns) = (sym (append-nil texts), sym (append-nil turns))

pub add_messages-Gathers :
    (ms : List Message) (ps : Anthropic.Params)
    → IfOk
        (λ now. Gathers (anthropic_view ps) ms (anthropic_view now))
        (Anthropic.add_messages ms ps)
unfolding Anthropic.add_messages
add_messages-Gathers [] ps = Gathers-nil (anthropic_view ps)
add_messages-Gathers (m ∷ ms) ps =
    bind-IfOk _ _ (Anthropic.add_message m.role m.content ps) _
      (add_message-Gathers m.role m.content ps)
      (λ ps' first.
        IfOk-map _ _ (Anthropic.add_messages ms ps') (add_messages-Gathers ms ps') (λ now rest.
          Gathers-cons m ms (anthropic_view ps) (anthropic_view ps') (anthropic_view now) first
            rest))

parts_of-add_part :
    (o : Option (List Text)) (t : Text) → parts_of (Gemini.add_part o t) ≡ parts_of o ++ t ∷ []
unfolding Gemini.add_part
parts_of-add_part none t = refl
parts_of-add_part (some ts) t = refl

add_content-Gathers :
    (r : Role) (t : Text) (cs : Gemini.Contents)
    → IfOk
        (λ now. Gathers (gemini_view cs) (record { role = r; content = t } ∷ []) (gemini_view now))
        (Gemini.add_content r t cs)
unfolding Gemini.add_content
add_content-Gathers system t cs =
    (parts_of-add_part cs.instruction t, sym (append-nil (map gemini_reads cs.turns)))
add_content-Gathers user t cs = (
  sym (append-nil (parts_of cs.instruction)),
  map-append gemini_reads cs.turns (user_content t ∷ []),
)
add_content-Gathers model t cs = (
  sym (append-nil (parts_of cs.instruction)),
  map-append gemini_reads cs.turns (model_content t ∷ []),
)
add_content-Gathers (other_role r) t cs = tt

pub add_contents-Gathers :
    (ms : List Message) (cs : Gemini.Contents)
    → IfOk (λ now. Gathers (gemini_view cs) ms (gemini_view now)) (Gemini.add_contents ms cs)
unfolding Gemini.add_contents
add_contents-Gathers [] cs = Gathers-nil (gemini_view cs)
add_contents-Gathers (m ∷ ms) cs =
    bind-IfOk _ _ (Gemini.add_content m.role m.content cs) _
      (add_content-Gathers m.role m.content cs)
      (λ cs' first.
        IfOk-map _ _ (Gemini.add_contents ms cs') (add_contents-Gathers ms cs') (λ now rest.
          Gathers-cons m ms (gemini_view cs) (gemini_view cs') (gemini_view now) first rest))

-- The schema changes neither the blocks nor the turns.
pub with_format-keeps :
    (schema : Option Json) (ps : Anthropic.Params) (P : List Text → List Anthropic.Turn → Type 0)
    → P ps.system_blocks ps.turns
    → IfOk (λ (q : Anthropic.Params). P q.system_blocks q.turns) (Anthropic.with_format schema ps)
unfolding Anthropic.with_format
with_format-keeps none ps P h = h
with_format-keeps (some null) ps P h = h
with_format-keeps (some (object fs)) ps P h = h
with_format-keeps (some (boolean b)) ps P h = tt
with_format-keeps (some (number n)) ps P h = tt
with_format-keeps (some (string t)) ps P h = tt
with_format-keeps (some (array js)) ps P h = tt
