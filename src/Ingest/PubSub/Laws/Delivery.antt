-- ===== src/Ingest/PubSub/Laws/Delivery.antt =====
-- Which messages `handle` acknowledges, and which events it delivers.
use mathlib.Core.List.{append_assoc, append-nil}
use cloud_sre_agent.Prelude.{
  ◌≡◌, refl, ap, sym, ◌∙◌, inl, inr, Bool, true, false, List, [], ◌∷◌, ◌++◌, map, Result, ok, err,
  Text, All, All-append, Bool-cases,
}
use cloud_sre_agent.Domain.{LogEvent}
use cloud_sre_agent.Ingest.PubSub.Entry.{Library, MapError, map_message}
use cloud_sre_agent.Ingest.PubSub.Handle.{
  Settlement, acked, nacked, Arrival, Inbox, handle_mapped, handle, receive,
}

abbrev pub events_of : Result MapError LogEvent → List LogEvent
events_of (ok ev) = ev ∷ []
events_of (err e) = []

abbrev pub failed_of : Text → Result MapError LogEvent → List Text
failed_of id (ok ev) = []
failed_of id (err e) = id ∷ []

abbrev pub is_mapped : Result MapError LogEvent → Bool
is_mapped (ok ev) = true
is_mapped (err e) = false

module _ (lib : Library) where
  -- The events of the messages that were acknowledged.
  abbrev pub deliveries : List (Arrival × Settlement) → List LogEvent
  deliveries [] = []
  deliveries ((a, acked) ∷ ps) = events_of (map_message lib a.message a.at) ++ deliveries ps
  deliveries ((a, nacked) ∷ ps) = deliveries ps

  -- The identifiers of the messages that no event could be made of.
  abbrev pub failures : List (Arrival × Settlement) → List Text
  failures [] = []
  failures ((a, _) ∷ ps) = failed_of a.message.id (map_message lib a.message a.at) ++ failures ps

  abbrev pub IsRetryable : Arrival × Settlement → Type 0
  IsRetryable (a, acked) = Unit
  IsRetryable (a, nacked) = is_mapped (map_message lib a.message a.at) ≡ true

  deliveries-append :
      (ps qs : List (Arrival × Settlement)) → deliveries (ps ++ qs) ≡ deliveries ps ++ deliveries qs
  deliveries-append [] qs = refl
  deliveries-append ((a, acked) ∷ ps) qs = rw (deliveries-append ps qs) (
      sym
        (append_assoc (events_of (map_message lib a.message a.at)) (deliveries ps) (deliveries qs)))
  deliveries-append ((a, nacked) ∷ ps) qs = deliveries-append ps qs

  failures-append :
      (ps qs : List (Arrival × Settlement)) → failures (ps ++ qs) ≡ failures ps ++ failures qs
  failures-append [] qs = refl
  failures-append ((a, _) ∷ ps) qs = rw (failures-append ps qs) (
      sym (
        append_assoc (failed_of a.message.id (map_message lib a.message a.at)) (failures ps)
          (failures qs)))

  -- The channel has the events of the acknowledged messages, in their order; the messages dropped are
  -- those without an event; and a message that is handed back is one that an event was made of.
  pub record IsAccounted {W : Type 0} (s : Inbox W) : Type 0 where
    pub delivered : s.emitted ≡ deliveries s.settled
    pub dropped : s.dropped ≡ failures s.settled
    pub retryable : All IsRetryable s.settled

  -- One more settlement.
  IsAccounted-snoc :
      {W : Type 0} (a : Arrival) (d : Settlement) (s s' : Inbox W)
      → s'.settled ≡ s.settled ++ (a, d) ∷ []
      → s'.emitted ≡ s.emitted ++ deliveries ((a, d) ∷ [])
      → s'.dropped ≡ s.dropped ++ failures ((a, d) ∷ [])
      → IsRetryable (a, d)
      → IsAccounted s
      → IsAccounted s'
  IsAccounted-snoc a d s s' settled emitted dropped h i = record {
    delivered = rw (emitted, settled, deliveries-append, i.delivered) refl;
    dropped = rw (dropped, settled, failures-append, i.dropped) refl;
    retryable = rw settled (All-append IsRetryable s.settled ((a, d) ∷ []) i.retryable (h, tt));
  }

  module _ {W : Type 0} (enqueue : LogEvent → W → Bool × W) where
    handle_mapped-IsAccounted :
        (a : Arrival) (r : Result MapError LogEvent) (s : Inbox W)
        → map_message lib a.message a.at ≡ r
        → IsAccounted s
        → IsAccounted (handle_mapped lib enqueue a r s)
    unfolding handle_mapped
    handle_mapped-IsAccounted a (err e) s h i =
        IsAccounted-snoc a acked s _ refl (rw h (sym (append-nil s.emitted))) (rw h refl) tt i
    handle_mapped-IsAccounted a (ok ev) s h i = elim (Bool-cases (enqueue ev s.world).0) [
      | inl sent ↦
          IsAccounted-snoc a acked s _ (rw sent refl) (rw (sent, h) refl)
            (rw (sent, h) (sym (append-nil s.dropped))) tt i
      | inr failed ↦
          IsAccounted-snoc a nacked s _ (rw failed refl) (rw failed (sym (append-nil s.emitted)))
            (rw (failed, h) (sym (append-nil s.dropped))) (rw h refl) i
    ]

    arrivals-append :
        (ps : List (Arrival × Settlement)) (a : Arrival) (d : Settlement)
        → map (λ p. p.0) (ps ++ (a, d) ∷ []) ≡ map (λ p. p.0) ps ++ a ∷ []
    arrivals-append [] a d = refl
    arrivals-append (p ∷ ps) a d = ap (λ xs. p.0 ∷ xs) (arrivals-append ps a d)

    handle_mapped-settled :
        (a : Arrival) (r : Result MapError LogEvent) (s : Inbox W)
        → map (λ p. p.0) (handle_mapped lib enqueue a r s).settled
          ≡ map (λ p. p.0) s.settled ++ a ∷ []
    unfolding handle_mapped
    handle_mapped-settled a (err e) s = arrivals-append s.settled a acked
    handle_mapped-settled a (ok ev) s = elim (Bool-cases (enqueue ev s.world).0) [
      | inl sent ↦ rw sent (arrivals-append s.settled a acked)
      | inr failed ↦ rw failed (arrivals-append s.settled a nacked)
    ]

    -- Whatever the messages and whenever the source shuts down, each message is settled exactly once,
    -- in turn; the channel has gained the events of the acknowledged messages, and no others, in
    -- their order; and the messages dropped are those that no event could be made of, each of which
    -- is acknowledged.
    pub receive-IsAccounted :
        (arrivals : List Arrival) (s : Inbox W)
        → IsAccounted s
        → IsAccounted (receive lib enqueue arrivals s)
          × (map (λ p. p.0) (receive lib enqueue arrivals s).settled
              ≡ map (λ p. p.0) s.settled ++ arrivals)
    unfolding receive handle
    receive-IsAccounted [] s i = (i, sym (append-nil (map (λ p. p.0) s.settled)))
    receive-IsAccounted (a ∷ arrivals) s i =
        let r = map_message lib a.message a.at in
        let (later, settled) =
          receive-IsAccounted arrivals (handle lib enqueue a s)
            (handle_mapped-IsAccounted a r s refl i) in
        (
          later,
          settled
              ∙ ap (λ xs. xs ++ arrivals) (handle_mapped-settled a r s)
              ∙ append_assoc (map (λ p. p.0) s.settled) (a ∷ []) arrivals,
        )
