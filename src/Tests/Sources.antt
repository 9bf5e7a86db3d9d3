-- ===== src/Tests/Sources.antt =====
-- Runs of the sources of events.
use cloud_sre_agent.Prelude.{
  ℕ, zero, suc, ◌≡◌, refl, Bool, true, false, List, [], ◌∷◌, ◌++◌, map, All, none, ok, err, Text,
  codes, length, text_eq, trim_left, trim_right, if◌then◌else◌,
}
use cloud_sre_agent.Prelude.Int.{pos}
use cloud_sre_agent.Domain.{LogEvent}
use cloud_sre_agent.Ingest.File
use cloud_sre_agent.Ingest.File.{encoding_text}
use cloud_sre_agent.Ingest.File.Drain.{
  Env, State, Signal, tick, get_state, set_state, extend_first, complete_lines, is_line_end, emit,
  emit_line, drain_line, drain_lines, drain_text, drain_opened, drain_file, differs, resume_at,
  after_drain, scan_stat, scan_paths, scan_matches, scan, read_files, watch_files, run,
}
use cloud_sre_agent.Ingest.File.Parse.{parse_line, parse_text, infer_severity}
use cloud_sre_agent.Ingest.File.Laws.Validity.{IsAccepted, run-IsClean}
use cloud_sre_agent.Ingest.File.Laws.Growth.{
  IsUndisturbed, follow, concat, left_by, follow-drain_text,
}
use cloud_sre_agent.Ingest.PubSub.Entry
use cloud_sre_agent.Ingest.PubSub.Entry.{
  Entry, Message, first_of, event_of_entry, event_of_decoded, map_message,
}
use cloud_sre_agent.Ingest.PubSub.Handle.{
  Settlement, acked, nacked, Arrival, Inbox, handle_mapped, handle, receive,
}
use cloud_sre_agent.Ingest.PubSub.Laws.Delivery.{IsAccounted, receive-IsAccounted}

-- The outside world is what the file holds; a file's information is its length.
abbrev library : File.Library
library = record { parse_time = λ layout v. none; parse_json = λ s. none; base_name = λ p. p }

abbrev env : Env Text ℕ
env = record {
  stopped = λ w. (false, w);
  send = λ ev w. (true, w);
  now = λ w. 7;
  open_file = λ path w. (ok w, w);
  seek_error = λ path offset w. none;
  stat = λ path w. ok (length w);
  size = λ n. n;
  same_file = λ a b. true;
  glob = λ pattern w. ok (codes "app.log" ∷ []);
}

env-IsUndisturbed : IsUndisturbed env
env-IsUndisturbed = record { never_stopped = λ w. refl; takes = λ ev w. refl }

abbrev tail_source : File.Source
tail_source = record {
  cfg = record {
    path = codes "*.log";
    watch = true;
    encoding = encoding_text;
    poll_interval = pos 1;
  };
  enc = encoding_text;
  poll = pos 1;
}

-- A newline, as a text.
abbrev nl : Text
nl = 10 ∷ []

abbrev start : State Text
start = record { world = codes "ERROR one" ++ (nl ++ codes "tw"); seq = 0; emitted = [] }

-- A poll after which the second line is complete.
abbrev signals : List (Signal Text)
signals = tick (λ w. w ++ (codes "o" ++ nl)) ∷ []

-- The first pass leaves the line that is not complete, and the second reads it alone.
run_test :
    map (λ (e : LogEvent). e.message) (run library env tail_source [] signals start).emitted
    ≡ codes "ERROR one" ∷ codes "two" ∷ []
unfolding run scan scan_matches scan_paths scan_stat get_state set_state after_drain drain_file
    drain_opened drain_text drain_lines drain_line emit_line emit complete_lines extend_first
    is_line_end resume_at differs read_files watch_files parse_line parse_text infer_severity
    trim_right trim_left text_eq
run_test = refl

run-IsClean_example : All IsAccepted (run library env tail_source [] signals start).emitted
run-IsClean_example = run-IsClean library env tail_source [] signals start tt

abbrev quiet : State Text
quiet = record { world = []; seq = 0; emitted = [] }

abbrev first_text : Text
first_text = codes "one" ++ (nl ++ codes "tw")

abbrev chunks : List Text
chunks = (codes "o" ++ nl) ∷ codes "three" ∷ nl ∷ []

abbrev read_once : Text → ℕ × State Text
read_once text = drain_text library env tail_source (codes "app.log") 0 text quiet

follow-drain_text_example :
    follow library env tail_source length
      (codes "app.log")
      first_text
      chunks
      (left_by length first_text (read_once first_text))
    ≡ left_by length (first_text ++ concat chunks) (read_once (first_text ++ concat chunks))
follow-drain_text_example =
    follow-drain_text library env tail_source env-IsUndisturbed length
      (record { size_of = λ t. refl; same = λ a b. refl }) (codes "app.log") first_text chunks quiet

-- Messages whose data is the text of their entry; the data "?" is no JSON.
abbrev entry_of : Text → Entry
entry_of t = record {
  severity = codes "error";
  timestamp = [];
  text_payload = t;
  json_payload = [];
  log_name = codes "syslog";
  insert_id = [];
  labels = [];
  resource = none;
}

abbrev entries : Entry.Library
entries = record {
  unmarshal_entry = λ s. if text_eq s (codes "?") then err (codes "syntax") else ok (entry_of s);
  unmarshal_payload = λ s. none;
  parse_time = λ layout v. none;
}

abbrev arrival : Text → Text → Arrival
arrival id body = record { message = record { id = id; body = body; publish_time = 5 }; at = 9 }

abbrev arrivals : List Arrival
arrivals =
    arrival (codes "m1") (codes "disk full")
    ∷ arrival (codes "m2") (codes "?")
    ∷ arrival (codes "m3") (codes "disk gone")
    ∷ []

-- The channel has room for a number of events; then the source shuts down.
abbrev enqueue : LogEvent → ℕ → Bool × ℕ
enqueue ev zero = (false, zero)
enqueue ev (suc n) = (true, n)

abbrev inbox : Inbox ℕ
inbox = record { world = 1; emitted = []; settled = []; dropped = [] }

receive_test :
    map (λ (p : Arrival × Settlement). p.1) (receive entries enqueue arrivals inbox).settled
    ≡ acked ∷ acked ∷ nacked ∷ []
unfolding receive handle handle_mapped map_message event_of_decoded event_of_entry first_of text_eq
receive_test = refl

receive-IsAccounted_example :
    IsAccounted entries (receive entries enqueue arrivals inbox)
    × (map (λ (p : Arrival × Settlement). p.0) (receive entries enqueue arrivals inbox).settled
        ≡ arrivals)
receive-IsAccounted_example =
    receive-IsAccounted entries enqueue arrivals inbox
      (record { delivered = refl; dropped = refl; retryable = tt })
