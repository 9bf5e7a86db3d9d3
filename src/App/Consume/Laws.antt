-- ===== src/App/Consume/Laws.antt =====
-- What `consume` does with a stream of events, with the errors of the sources and with the texts of
-- errors.
use cloud_sre_agent.Prelude.{
  ◌≡◌, refl, sym, ap, ◌∙◌, false, List, [], ◌∷◌, ◌++◌, map, Option, none, some, Text, arith, All,
  All-append,
}
use mathlib.Core.List.{append_assoc, append-nil}
use cloud_sre_agent.Prelude.Runtime.{Runtime}
use cloud_sre_agent.Domain.{LogEvent, Incident, Time}
use cloud_sre_agent.Detect.Observe.{observe, run, emit}
use cloud_sre_agent.Pipeline.{
  Pipeline, State, PipelineError, not_actionable, invalid_incident, schema_failed, generate_failed,
  decode_failed, remediation_invalid, validate_failed, patch_rejected, deliver_failed,
}
use cloud_sre_agent.Pipeline.Process.{Outcome, process}
use cloud_sre_agent.Scm.{Ref}
use cloud_sre_agent.Ingest.PubSub
use cloud_sre_agent.Ingest.PubSub.{ReceiveError, received, set_err}
use cloud_sre_agent.App.Consume.{
  LogLine, stopping, source_failed, skipped, processing_failed, remediated, Signal, context_done,
  channel_closed, failed, Source, plain, reporting, sources_err, Agent, outcome_line,
  handle_incident, handle_found, receive, finish, consume,
}

abbrev pub signals_of : List (Time × LogEvent) → List Signal
signals_of [] = []
signals_of ((now, ev) ∷ evs) = Signal.received now ev ∷ signals_of evs

-- A source that reports no error.
abbrev pub IsHealthy : Source → Type 0
IsHealthy plain = Unit
IsHealthy (reporting e) = e ≡ none

sources_err-healthy :
    (before after : List Source) (e : Text)
    → All IsHealthy before
    → sources_err (before ++ reporting (some e) ∷ after) ≡ some e
unfolding sources_err
sources_err-healthy [] after e h = refl
sources_err-healthy (plain ∷ before) after e (_, h) = sources_err-healthy before after e h
sources_err-healthy (reporting none ∷ before) after e (_, h) = sources_err-healthy before after e h
sources_err-healthy (reporting (some x) ∷ before) after e (k, h) = absurd (ground (arith, k))

module _ (rt : Runtime) {W : Type 0} (p : Pipeline W) (sanitize : Text → Text)
    (error_text : PipelineError → Text) where
  -- Incidents, handled one after another.
  abbrev handle_all : List (Incident rt) → Agent rt W → Agent rt W
  handle_all [] a = a
  handle_all (inc ∷ incs) a = handle_all incs (handle_incident rt p sanitize error_text inc a)

  -- The loop over a stream of events, by the handling of the incidents found.
  abbrev RunsAs : List Source → List (Time × LogEvent) → List Signal → Agent rt W → Type 0
  RunsAs sources evs rest a =
      consume rt p sanitize error_text sources (signals_of evs ++ rest) a ≡ (
        let (d, incs) = run rt evs a.detector in
        consume rt p sanitize error_text sources rest (handle_all incs (record a { detector = d })))

  handle_found-run :
      (found : Option (Incident rt)) (sources : List Source) (evs : List (Time × LogEvent))
      (rest : List Signal) (a : Agent rt W)
      → ((b : Agent rt W) → RunsAs sources evs rest b)
      → consume rt p sanitize error_text sources
          (signals_of evs ++ rest)
          (handle_found rt p sanitize error_text found a)
        ≡ (let (d, incs) = run rt evs a.detector in
            consume rt p sanitize error_text sources rest
              (handle_all (emit rt found incs) (record a { detector = d })))
  unfolding handle_found handle_incident
  handle_found-run none sources evs rest a h = h a
  handle_found-run (some inc) sources evs rest a h =
      h (handle_incident rt p sanitize error_text inc a)

  consume-handled :
      (sources : List Source) (evs : List (Time × LogEvent)) (rest : List Signal) (a : Agent rt W)
      → RunsAs sources evs rest a
  unfolding consume run receive handle_found handle_incident
  consume-handled sources [] rest a = refl
  consume-handled sources ((now, ev) ∷ evs) rest a =
      let (d, found) = observe rt now ev a.detector in
      handle_found-run found sources evs rest (record a { detector = d })
        (λ b. consume-handled sources evs rest b)

  -- The pipeline over a list of incidents, once over each and from the state that the one before
  -- left: each incident with its outcome, and the last state.
  abbrev pub journeys : List (Incident rt) → State W → List (Incident rt × Outcome rt) × State W
  journeys [] s = ([], s)
  journeys (inc ∷ incs) s =
      let (res, s') = process rt p inc s in
      let (rest, s'') = journeys incs s' in ((inc, res) ∷ rest, s'')

  -- What is to be told of an outcome.
  abbrev told : Text → Ref → Option PipelineError → LogLine
  told id ref none = remediated id ref.id ref.url
  told id ref (some not_actionable) = skipped id
  told id ref (some e) = processing_failed id (sanitize (error_text e))

  abbrev pub line_of : Incident rt × Outcome rt → LogLine
  line_of (inc, res) = told inc.id res.ref res.error

  outcome_line-told :
      (id : Text) (res : Outcome rt) (e : Option PipelineError)
      → outcome_line rt p sanitize error_text id res e ≡ told id res.ref e
  unfolding outcome_line
  outcome_line-told id res none = refl
  outcome_line-told id res (some not_actionable) = refl
  outcome_line-told id res (some (invalid_incident x)) = refl
  outcome_line-told id res (some (schema_failed st x)) = refl
  outcome_line-told id res (some (generate_failed st x)) = refl
  outcome_line-told id res (some (decode_failed st)) = refl
  outcome_line-told id res (some (remediation_invalid x)) = refl
  outcome_line-told id res (some (validate_failed x)) = refl
  outcome_line-told id res (some (patch_rejected x)) = refl
  outcome_line-told id res (some (deliver_failed x)) = refl

  -- The agent after the incidents.
  abbrev pub after_journeys : List (Incident rt) → Agent rt W → Agent rt W
  after_journeys incs a = record a {
    pipeline = (journeys incs a.pipeline).1;
    log = a.log ++ map line_of (journeys incs a.pipeline).0;
  }

  handle_all-journeys :
      (incs : List (Incident rt)) (a : Agent rt W) → handle_all incs a ≡ after_journeys incs a
  unfolding handle_incident
  handle_all-journeys [] a = λ i. record a { log = sym (append-nil a.log) i }
  handle_all-journeys (inc ∷ incs) a =
      let (res, s) = process rt p inc a.pipeline in
      let b = handle_incident rt p sanitize error_text inc a in
      let line = outcome_line-told inc.id res res.error in
      let lines = map line_of (journeys incs s).0 in
      let logs : b.log ++ lines ≡ a.log ++ line_of (inc, res) ∷ lines =
        append_assoc a.log _ lines ∙ ap (λ l. a.log ++ l ∷ lines) line in
      handle_all-journeys incs b ∙ (λ i. record (after_journeys incs b) { log = logs i })

  -- The loop over a stream of events is the detector's run over it and then `Process` over the incidents
  -- found, once over each and in turn: the detector and the pipeline are left in their last states,
  -- and the log has one more line for each incident, which tells its outcome.
  pub consume-run :
      (sources : List Source) (evs : List (Time × LogEvent)) (rest : List Signal) (a : Agent rt W)
      → consume rt p sanitize error_text sources (signals_of evs ++ rest) a ≡ (
          let (d, incs) = run rt evs a.detector in
          let travelled = journeys incs a.pipeline in
          consume rt p sanitize error_text sources rest (record {
            detector = d;
            pipeline = travelled.1;
            log = a.log ++ map line_of travelled.0;
          }))
  consume-run sources evs rest a =
      let (d, incs) = run rt evs a.detector in
      consume-handled sources evs rest a
      ∙ ap (consume rt p sanitize error_text sources rest)
          (handle_all-journeys incs (record a { detector = d }))

  -- After a stream of events and the closing of the channel, `consume` ends with the error of the
  -- first source that reports one.
  consume-closed :
      (sources : List Source) (evs : List (Time × LogEvent)) (rest : List Signal) (a : Agent rt W)
      (e : Text)
      → sources_err sources ≡ some e
      → (consume rt p sanitize error_text sources (signals_of evs ++ channel_closed ∷ rest) a).0
        ≡ failed e
  unfolding consume finish
  consume-closed sources [] rest a e h = rw h refl
  consume-closed sources ((now, ev) ∷ evs) rest a e h =
      consume-closed sources evs rest (receive rt p sanitize error_text now ev a) e h

  -- When `Receive` of a Pub/Sub source ends with an error that is no cancellation, and no source before
  -- it reports an error, `consume` returns that error once its channel is closed, however many
  -- events came before: the death of a source is never taken for the end of its events.
  pub consume-source_failed :
      {C : Type 0} (before after : List Source) (s : PubSub.Source C) (e : ReceiveError)
      (evs : List (Time × LogEvent)) (rest : List Signal) (a : Agent rt W)
      → All IsHealthy before
      → s.fatal_err ≡ none
      → e.canceled ≡ false
      → (consume rt p sanitize error_text
          (before ++ reporting (received (some e) s).fatal_err ∷ after)
          (signals_of evs ++ channel_closed ∷ rest)
          a).0
        ≡ failed e.text
  unfolding received set_err
  consume-source_failed before after s e evs rest a healthy fresh fatal =
      consume-closed _ evs rest a e.text
        (rw (fatal, fresh) (sources_err-healthy before after e.text healthy))

  -- A line of the log has the text of an error only as the sanitizer returns it; the reason of a
  -- stop has the property `P`.
  abbrev pub IsScrubbed : (Text → Type 0) → LogLine → Type 0
  IsScrubbed P (stopping t) = P t
  IsScrubbed P (source_failed t) = (raw : Text) × (t ≡ sanitize raw)
  IsScrubbed P (processing_failed id t) = (raw : Text) × (t ≡ sanitize raw)
  IsScrubbed P _ = Unit

  -- The context's reason, if the signal has one, has the property.
  abbrev pub HasReason : (Text → Type 0) → Signal → Type 0
  HasReason P (context_done t) = P t
  HasReason P _ = Unit

  outcome_line-IsScrubbed :
      (P : Text → Type 0) (id : Text) (res : Outcome rt) (e : Option PipelineError)
      → IsScrubbed P (outcome_line rt p sanitize error_text id res e)
  unfolding outcome_line
  outcome_line-IsScrubbed P id res none = tt
  outcome_line-IsScrubbed P id res (some not_actionable) = tt
  outcome_line-IsScrubbed P id res (some (invalid_incident x)) =
      (error_text (invalid_incident x), refl)
  outcome_line-IsScrubbed P id res (some (schema_failed st x)) =
      (error_text (schema_failed st x), refl)
  outcome_line-IsScrubbed P id res (some (generate_failed st x)) =
      (error_text (generate_failed st x), refl)
  outcome_line-IsScrubbed P id res (some (decode_failed st)) = (error_text (decode_failed st), refl)
  outcome_line-IsScrubbed P id res (some (remediation_invalid x)) =
      (error_text (remediation_invalid x), refl)
  outcome_line-IsScrubbed P id res (some (validate_failed x)) =
      (error_text (validate_failed x), refl)
  outcome_line-IsScrubbed P id res (some (patch_rejected x)) = (error_text (patch_rejected x), refl)
  outcome_line-IsScrubbed P id res (some (deliver_failed x)) = (error_text (deliver_failed x), refl)

  handle_found-IsScrubbed :
      (P : Text → Type 0) (found : Option (Incident rt)) (a : Agent rt W)
      → All (IsScrubbed P) a.log
      → All (IsScrubbed P) (handle_found rt p sanitize error_text found a).log
  unfolding handle_found handle_incident
  handle_found-IsScrubbed P none a h = h
  handle_found-IsScrubbed P (some inc) a h =
      let out = (process rt p inc a.pipeline).0 in
      All-append (IsScrubbed P) a.log _ h (outcome_line-IsScrubbed P inc.id out out.error, tt)

  finish-IsScrubbed :
      (P : Text → Type 0) (e : Option Text) (a : Agent rt W)
      → All (IsScrubbed P) a.log
      → All (IsScrubbed P) (finish rt p sanitize error_text e a).1.log
  unfolding finish
  finish-IsScrubbed P (some e) a h = All-append (IsScrubbed P) a.log _ h ((e, refl), tt)
  finish-IsScrubbed P none a h = All-append (IsScrubbed P) a.log _ h (tt, tt)

  -- Whatever the loop receives, the log that `consume` leaves has the text of an error of a source or of
  -- the pipeline only as the sanitizer returned it. The line of a stop has the context's reason as it
  -- is: whatever holds of the reasons that the context may give holds of the one in that line.
  pub consume-IsScrubbed :
      (P : Text → Type 0) (sources : List Source) (signals : List Signal) (a : Agent rt W)
      → All (HasReason P) signals
      → All (IsScrubbed P) a.log
      → All (IsScrubbed P) (consume rt p sanitize error_text sources signals a).1.log
  unfolding consume receive
  consume-IsScrubbed P sources [] a r h = h
  consume-IsScrubbed P sources (context_done reason ∷ signals) a (r, _) h =
      All-append (IsScrubbed P) a.log (stopping reason ∷ []) h (r, tt)
  consume-IsScrubbed P sources (channel_closed ∷ signals) a r h =
      finish-IsScrubbed P (sources_err sources) a h
  consume-IsScrubbed P sources (Signal.received now ev ∷ signals) a (_, r) h =
      let (d, found) = observe rt now ev a.detector in
      consume-IsScrubbed P sources signals _ r
        (handle_found-IsScrubbed P found (record a { detector = d }) h)
