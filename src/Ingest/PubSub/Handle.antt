-- ===== src/Ingest/PubSub/Handle.antt =====
-- internal/ingest/pubsub/pubsub.go: `handle`, as `Receive` calls it for one message after another.
-- The callbacks run at the same time and share the channel alone, so the order of a run is the order
-- in which they settle their messages. `enqueue` is the `select` of `handle`, on the state `W` of the
-- outside world: true where the event went into the channel, false on a shutdown.
use cloud_sre_agent.Prelude.{Bool, List, [], ◌∷◌, ◌++◌, Result, ok, err, Text, if◌then◌else◌}
use cloud_sre_agent.Domain.{LogEvent, Time}
use cloud_sre_agent.Ingest.PubSub.Entry.{Library, Message, MapError, map_message}

pub data Settlement : Type 0 where
  acked nacked : Settlement

-- A message, and the reading of the clock when it is handled.
pub record Arrival : Type 0 where
  pub message : Message
  pub at : Time

-- The events in the channel, the settlements, and the messages of which the decoding failed, by
-- their identifiers, in the order in which these came.
pub record Inbox (W : Type 0) : Type 0 where
  pub world : W
  pub emitted : List LogEvent
  pub settled : List (Arrival × Settlement)
  pub dropped : List Text

module _ {W : Type 0} (lib : Library) (enqueue : LogEvent → W → Bool × W) where
  unfoldable pub handle_mapped : Arrival → Result MapError LogEvent → Inbox W → Inbox W
  handle_mapped a (err e) s = record s {
    settled = s.settled ++ (a, acked) ∷ [];
    dropped = s.dropped ++ a.message.id ∷ [];
  }
  handle_mapped a (ok ev) s =
      let (sent, w) = enqueue ev s.world in
      if sent
      then record s {
        world = w;
        emitted = s.emitted ++ ev ∷ [];
        settled = s.settled ++ (a, acked) ∷ [];
      }
      else record s { world = w; settled = s.settled ++ (a, nacked) ∷ [] }

  -- `handle`
  unfoldable pub handle : Arrival → Inbox W → Inbox W
  unfolding handle_mapped map_message
  handle a s = handle_mapped a (map_message lib a.message a.at) s

  -- The messages that `Receive` hands to `handle`.
  unfoldable pub receive : List Arrival → Inbox W → Inbox W
  unfolding handle
  receive [] s = s
  receive (a ∷ arrivals) s = receive arrivals (handle a s)
