-- ===== src/Ingest/PubSub/Entry.antt =====
-- internal/ingest/pubsub/pubsub.go: `mapMessage` and what it calls. `json.Unmarshal` into the two
-- struct types and `time.Parse` are the parameter `Library`.

use cloud_sre_agent.Prelude.{
  Bool, true, false, ◌&&◌, not, [], ◌∷◌, ◌++◌, Option, none, some, Result, ok, err, Text, codes,
  is_empty, one_of, to_upper, trim_space, if◌then◌else◌,
}
use cloud_sre_agent.Domain.{LogEvent, Labels, Time, is_zero}
use cloud_sre_agent.Domain.Levels.{
  Severity, severity_debug, severity_info, severity_warning, severity_error, severity_critical,
}
use cloud_sre_agent.Ingest.Labels.{copy_labels}
use cloud_sre_agent.Ingest.PubSub.{source_name}

pub record Message : Type 0 where
  pub id : Text
  pub body : Text
  pub publish_time : Time

pub record Resource : Type 0 where
  pub resource_type : Text
  pub labels : Labels

-- `logEntry`; the payload is its raw JSON.
pub record Entry : Type 0 where
  pub severity : Text
  pub timestamp : Text
  pub text_payload : Text
  pub json_payload : Text
  pub log_name : Text
  pub insert_id : Text
  pub labels : Labels
  pub resource : Option Resource

pub record Payload : Type 0 where
  pub message : Text
  pub msg : Text

pub record Library : Type 0 where
  pub unmarshal_entry : Text → Result Text Entry
  pub unmarshal_payload : Text → Option Payload
  pub parse_time : Text → Text → Option Time

pub data MapError : Type 0 where
  decode_failed : Text → MapError
  no_id : MapError

-- `firstNonEmpty` of two texts.
unfoldable pub first_of : Text → Text → Text
first_of a b = if is_empty a then b else a

unfoldable pub map_severity : Text → Severity
map_severity s =
    let u = to_upper (trim_space s) in
    if one_of u (codes "DEBUG" ∷ [])
    then severity_debug
    else if one_of u (codes "" ∷ codes "DEFAULT" ∷ codes "INFO" ∷ codes "NOTICE" ∷ [])
    then severity_info
    else if one_of u (codes "WARNING" ∷ [])
    then severity_warning
    else if one_of u (codes "ERROR" ∷ [])
    then severity_error
    else if one_of u (codes "CRITICAL" ∷ codes "ALERT" ∷ codes "EMERGENCY" ∷ [])
    then severity_critical
    else severity_info

-- The message of a decoded payload, or the payload itself.
unfoldable pub payload_message : Text → Option Payload → Text
unfolding first_of
payload_message raw none = raw
payload_message raw (some p) =
    if is_empty (first_of p.message p.msg) then raw else first_of p.message p.msg

unfoldable pub resource_type_of : Option Resource → Text
resource_type_of none = []
resource_type_of (some r) = r.resource_type

unfoldable pub resource_labels_of : Option Resource → Labels
resource_labels_of none = []
resource_labels_of (some r) = r.labels

unfoldable pub entry_source : Entry → Text
unfolding resource_type_of
entry_source le =
    let res = resource_type_of le.resource in
    if not (is_empty res) && not (is_empty le.log_name)
    then res ++ (codes ":" ++ le.log_name)
    else if not (is_empty res)
    then res
    else if not (is_empty le.log_name)
    then le.log_name
    else source_name

abbrev pub has_none : Labels → Bool
has_none [] = true
has_none (_ ∷ _) = false

-- `mergeLabels`; a nil map is the empty list.
unfoldable pub merge_labels : Entry → Labels
unfolding copy_labels resource_labels_of
merge_labels le =
    let res = resource_labels_of le.resource in
    if has_none res && has_none le.labels then [] else copy_labels le.labels (copy_labels res [])

module _ (lib : Library) where
  unfoldable pub entry_message : Entry → Text
  unfolding payload_message
  entry_message le =
      if not (is_empty le.text_payload)
      then le.text_payload
      else if not (is_empty le.json_payload)
      then payload_message le.json_payload (lib.unmarshal_payload le.json_payload)
      else []

  -- The time of an entry that says none, at a reading of the clock.
  unfoldable pub publish_or_now : Time → Time → Time
  publish_or_now publish now = if is_zero publish then now else publish

  unfoldable pub entry_timestamp : Text → Time → Time → Time
  unfolding publish_or_now
  entry_timestamp v publish now =
      if is_empty v
      then publish_or_now publish now
      else elim (lib.parse_time (codes "2006-01-02T15:04:05.999999999Z07:00") v) [
        | some t ↦ t
        | none ↦ elim (lib.parse_time (codes "2006-01-02T15:04:05Z07:00") v) [
          | some t ↦ t
          | none ↦ publish_or_now publish now
        ]
      ]

  unfoldable pub event_of_entry : Message → Entry → Time → Result MapError LogEvent
  unfolding first_of entry_timestamp map_severity entry_message entry_source merge_labels
  event_of_entry m le now =
      if is_empty (first_of m.id le.insert_id)
      then err no_id
      else ok (record {
        id = first_of m.id le.insert_id;
        timestamp = entry_timestamp le.timestamp m.publish_time now;
        severity = map_severity le.severity;
        message = entry_message le;
        source = entry_source le;
        labels = merge_labels le;
      })

  unfoldable pub event_of_decoded : Message → Result Text Entry → Time → Result MapError LogEvent
  unfolding event_of_entry
  event_of_decoded m (err e) now = err (decode_failed e)
  event_of_decoded m (ok le) now = event_of_entry m le now

  -- `mapMessage`
  unfoldable pub map_message : Message → Time → Result MapError LogEvent
  unfolding event_of_decoded
  map_message m now = event_of_decoded m (lib.unmarshal_entry m.body) now
