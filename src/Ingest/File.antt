-- ===== src/Ingest/File.antt =====
-- internal/ingest/file/file.go: the source that reads log lines from files.
pub mod Parse
pub mod Drain
pub mod Laws
use Prim.Native.Nat.{ℕ}
use cloud_sre_agent.Prelude.{
  ◌*◌, Bool, List, [], ◌∷◌, Option, Result, ok, err, Text, codes, one_of, is_empty, trim_space,
  if◌then◌else◌,
}
use cloud_sre_agent.Prelude.Json.{Json}
use cloud_sre_agent.Prelude.Int.{ℤ, pos, leb_ℤ}
use cloud_sre_agent.Domain.{Time}

abbrev pub encoding_auto : Text
encoding_auto = codes "auto"

abbrev pub encoding_json : Text
encoding_json = codes "json"

abbrev pub encoding_text : Text
encoding_text = codes "text"

-- What the package calls of time, encoding/json and path/filepath: `time.Parse` of a layout and a
-- value, as a time in UTC; the JSON reader; and `filepath.Base`.
pub record Library : Type 0 where
  pub parse_time : Text → Text → Option Time
  pub parse_json : Text → Option Json
  pub base_name : Text → Text

pub record Config : Type 0 where
  pub path : Text
  pub watch : Bool
  pub encoding : Text
  pub poll_interval : ℤ

-- `FileSystemSource` as `New` leaves it; the channel, the counter and the read states are part of
-- the state that the functions of `Drain` pass on.
pub record Source : Type 0 where
  pub cfg : Config
  pub enc : Text
  pub poll : ℤ

pub data NewError : Type 0 where
  path_required : NewError
  unknown_encoding : Text → NewError

unfoldable pub default_encoding : Text → Text
default_encoding enc = if is_empty enc then encoding_auto else enc

unfoldable pub new : Config → Result NewError Source
unfolding default_encoding
new cfg =
    if is_empty (trim_space cfg.path)
    then err path_required
    else (if one_of (default_encoding cfg.encoding)
          (encoding_auto ∷ encoding_json ∷ encoding_text ∷ [])
        then ok (record {
          cfg = cfg;
          enc = default_encoding cfg.encoding;
          poll = if leb_ℤ cfg.poll_interval (pos 0) then pos 500_000_000 else cfg.poll_interval;
        })
        else err (unknown_encoding cfg.encoding))
