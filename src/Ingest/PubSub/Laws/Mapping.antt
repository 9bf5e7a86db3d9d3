-- ===== src/Ingest/PubSub/Laws/Mapping.antt =====
-- The events that `mapMessage` makes.
use mathlib.Core.Path.{subst}
use cloud_sre_agent.Prelude.{
  ◌≡◌, refl, ap, sym, inl, inr, true, false, ◌&&◌, [], ◌∷◌, Option, none, some, Result, ok, err,
  Text, text_eq, text_eq_iff, is_empty, arith, Bool-cases, if◌then◌else◌,
}
use cloud_sre_agent.Domain.{
  LogEvent, Labels, Time, validate_event, DomainError, event_message_required,
}
use cloud_sre_agent.Domain.Levels.{Severity, valid}
use cloud_sre_agent.Ingest.Labels.{get_label, set_label, copy_labels, get_label-set_label}
use cloud_sre_agent.Ingest.PubSub.Entry.{
  Library, Message, Entry, event_of_entry, event_of_decoded, map_message, map_severity,
  merge_labels, has_none, first_of, entry_timestamp, entry_source, entry_message,
  resource_labels_of,
}

-- A label map has one entry for a key.
abbrev pub IsMap : Labels → Type 0
IsMap [] = Unit
IsMap ((k, v) ∷ ls) = (get_label k ls ≡ none) × IsMap ls

-- The first of two values that there is.
abbrev pub or_else : Option Text → Option Text → Option Text
or_else none b = b
or_else (some a) b = some a

pub get_label-copy_labels :
    (j : Text) (from to : Labels)
    → IsMap from
    → get_label j (copy_labels from to) ≡ or_else (get_label j from) (get_label j to)
unfolding copy_labels get_label
get_label-copy_labels j [] to h = refl
get_label-copy_labels j ((k, v) ∷ from) to (fresh, h) =
    let later = get_label-copy_labels j from (set_label k v to) h in
    elim (Bool-cases (text_eq k j)) [
      | inl e ↦ rw (later, get_label-set_label k j v to, e, sym ((text_eq_iff k j).0 e), fresh) refl
      | inr e ↦ rw (later, get_label-set_label k j v to, e) refl
    ]

or_else-none : (a : Option Text) → or_else a none ≡ a
or_else-none none = refl
or_else-none (some a) = refl

copy_both :
    (k : Text) (ls res : Labels)
    → IsMap ls
    → IsMap res
    → get_label k (copy_labels ls (copy_labels res [])) ≡ or_else (get_label k ls) (get_label k res)
unfolding get_label
copy_both k ls res h i =
    rw (get_label-copy_labels k ls (copy_labels res []) h, get_label-copy_labels k res [] i)
      (ap (or_else (get_label k ls)) (or_else-none (get_label k res)))

merge_both :
    (k : Text) (ls res : Labels)
    → IsMap ls
    → IsMap res
    → get_label k (if has_none res && has_none ls then [] else copy_labels ls (copy_labels res []))
      ≡ or_else (get_label k ls) (get_label k res)
unfolding get_label
merge_both k [] [] h i = refl
merge_both k (l ∷ ls) [] h i = copy_both k (l ∷ ls) [] h i
merge_both k ls (r ∷ res) h i = copy_both k ls (r ∷ res) h i

-- Where the labels of an entry and of its resource have one entry for a key, a label of the event is
-- the entry's, and the resource's only where the entry has none of that key.
pub get_label-merge_labels :
    (le : Entry) (k : Text)
    → IsMap le.labels
    → IsMap (resource_labels_of le.resource)
    → get_label k (merge_labels le)
      ≡ or_else (get_label k le.labels) (get_label k (resource_labels_of le.resource))
unfolding merge_labels
get_label-merge_labels le k h i = merge_both k le.labels (resource_labels_of le.resource) h i

map_severity-valid : (s : Text) → valid (map_severity s) ≡ true
unfolding map_severity valid
map_severity-valid s = ground arith

-- What `LogEvent.Validate` says of an event with a message or without.
abbrev pub verdict_on : Text → Text → Result DomainError (Unit {0})
verdict_on id [] = err (event_message_required id)
verdict_on id (_ ∷ _) = ok tt

validate_event-verdict_on :
    (id message source : Text) (ts : Time) (sev : Severity) (ls : Labels)
    → is_empty id ≡ false
    → valid sev ≡ true
    → validate_event (record {
      id = id;
      timestamp = ts;
      severity = sev;
      message = message;
      source = source;
      labels = ls;
    })
      ≡ verdict_on id message
unfolding validate_event
validate_event-verdict_on id [] source ts sev ls h v = rw h refl
validate_event-verdict_on id (c ∷ s) source ts sev ls h v = rw (h, v) refl

IsOkAnd : {E A : Type 0} → (A → Type 0) → Result E A → Type 0
IsOkAnd P (ok a) = P a
IsOkAnd P (err e) = Unit

event_of_entry-validate :
    (lib : Library) (m : Message) (le : Entry) (now : Time)
    → IsOkAnd (λ ev. validate_event ev ≡ verdict_on ev.id ev.message) (event_of_entry lib m le now)
unfolding event_of_entry validate_event IsOkAnd
event_of_entry-validate lib m le now = elim (Bool-cases (is_empty (first_of m.id le.insert_id))) [
  | inl e ↦ rw e tt
  | inr e ↦ rw e (
      validate_event-verdict_on (first_of m.id le.insert_id) (entry_message lib le)
        (entry_source le) (entry_timestamp lib le.timestamp m.publish_time now)
        (map_severity le.severity) (merge_labels le) e (map_severity-valid le.severity))
]

-- An event that `mapMessage` makes passes `LogEvent.Validate` if it has a message, and is refused
-- for the lack of one if it has none: its identifier and its severity are always accepted.
pub map_message-validate :
    (lib : Library) (m : Message) (now : Time) (ev : LogEvent)
    → map_message lib m now ≡ ok ev
    → validate_event ev ≡ verdict_on ev.id ev.message
unfolding map_message event_of_decoded IsOkAnd
map_message-validate lib m now ev h =
    subst (IsOkAnd (λ x. validate_event x ≡ verdict_on x.id x.message)) h
      (checked (lib.unmarshal_entry m.body))
  where
    checked :
        (r : Result Text Entry)
        → IsOkAnd (λ x. validate_event x ≡ verdict_on x.id x.message) (event_of_decoded lib m r now)
    checked (err e) = tt
    checked (ok le) = event_of_entry-validate lib m le now
