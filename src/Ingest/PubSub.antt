-- ===== src/Ingest/PubSub.antt =====
-- internal/ingest/pubsub/pubsub.go: the source that receives entries of Cloud Logging from a
-- subscription of Pub/Sub, its configuration and its life cycle. The client is the parameter of
-- `new`; the error that ends `Receive` is a value of `ReceiveError`.
pub mod Entry
pub mod Handle
pub mod Laws
use cloud_sre_agent.Prelude.{
  Bool, true, false, List, Option, none, some, Result, ok, err, ◌>>=◌, ◌>>◌, reject_if, Text, codes,
  is_empty, trim_space, if◌then◌else◌,
}

abbrev pub source_name : Text
source_name = codes "pubsub"

pub record Config : Type 0 where
  pub project_id : Text
  pub subscription_id : Text

pub data NewError : Type 0 where
  project_required subscription_required : NewError
  client_failed : Text → NewError

-- `PubSubSource` over the client's handle `C`.
pub record Source (C : Type 0) : Type 0 where
  pub cfg : Config
  pub client : C
  pub closed : Bool
  pub started : Bool
  pub fatal_err : Option Text

-- The error of `Receive`, and whether it is `context.Canceled`.
pub record ReceiveError : Type 0 where
  pub text : Text
  pub canceled : Bool

module _ {C : Type 0} where
  -- The source that `New` returns with a client.
  unfoldable pub bind_client : Config → Result Text C → Result NewError (Source C)
  bind_client cfg (err e) = err (client_failed e)
  bind_client cfg (ok client) =
      ok (record { cfg = cfg; client = client; closed = false; started = false; fatal_err = none })

  -- `New`; the parameter dials the service for a project.
  unfoldable pub new : (Text → Result Text C) → Config → Result NewError (Source C)
  unfolding bind_client
  new dial cfg = do
    reject_if (is_empty (trim_space cfg.project_id)) project_required
    reject_if (is_empty (trim_space cfg.subscription_id)) subscription_required
    bind_client cfg (dial cfg.project_id)

  -- `setErr`
  unfoldable pub set_err : Text → Source C → Source C
  set_err e s = record s { fatal_err = elim s.fatal_err [ none ↦ some e | some e' ↦ some e' ] }

  -- `Close`, without the client's own `Close`.
  unfoldable pub close : Source C → Source C
  close s = record s { closed = true }

  -- `Stream` starts one receiver at most: whether this call starts it.
  unfoldable pub start : Source C → Bool × Source C
  start s = if s.started then (false, s) else (true, record s { started = true })

  -- The end of the receiver's goroutine, by what `Receive` returns.
  unfoldable pub received : Option ReceiveError → Source C → Source C
  unfolding set_err
  received none s = s
  received (some e) s = if e.canceled then s else set_err e.text s
