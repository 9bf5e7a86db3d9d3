-- ===== src/Scm/Local.antt =====
-- internal/scm/local/local.go: delivery of a change as a file in a directory. The file system, the
-- clock, the JSON writer and the functions of path/filepath are the parameter `System` over a state
-- `W` of the outside world. The slug is that of `Scm.Naming`, which the package spells out again.
pub mod Laws
use cloud_sre_agent.Prelude.{
  Bool, ◌++◌, Result, ok, err, Text, codes, if◌then◌else◌, is_empty, trim_space,
}
use cloud_sre_agent.Domain.{Time}
use cloud_sre_agent.Domain.Levels.{string}
use cloud_sre_agent.Scm.{Change, Ref}
use cloud_sre_agent.Scm.Naming.{slugify}

pub record Metadata : Type 0 where
  pub file_path : Text
  pub description : Text
  pub severity : Text
  pub delivered_at : Time
  pub patch_file : Text

pub record System (W : Type 0) : Type 0 where
  pub mkdir_all : Text → W → Result Text (Unit {0}) × W
  -- `os.WriteFile` of a content to a path
  pub write_file : Text → Text → W → Result Text (Unit {0}) × W
  pub now : W → Time
  -- `json.MarshalIndent`
  pub marshal : Metadata → Result Text Text
  -- `filepath.Join` of a directory and a name, and `filepath.Base`
  pub join_path : Text → Text → Text
  pub base_name : Text → Text

-- `LocalPatch`
pub record LocalPatch (W : Type 0) : Type 0 where
  pub system : System W
  pub dir : Text

pub data DeliverError : Type 0 where
  path_required patch_empty : DeliverError
  mkdir_failed write_patch_failed marshal_failed write_metadata_failed : Text → DeliverError

module _ {W : Type 0} (l : LocalPatch W) where
  unfoldable pub patch_path : Change → Text
  patch_path change = l.system.join_path l.dir (slugify change.file_path ++ codes ".patch")

  unfoldable pub meta_path : Change → Text
  meta_path change = l.system.join_path l.dir (slugify change.file_path ++ codes ".meta.json")

  unfoldable pub metadata_of : Change → Time → Metadata
  metadata_of change at = record {
    file_path = change.file_path;
    description = change.description;
    severity = string change.severity;
    delivered_at = at;
    patch_file = l.system.base_name (patch_path change);
  }

  unfoldable pub after_metadata : Change → Result Text (Unit {0}) × W → Result DeliverError Ref × W
  after_metadata change (err e, w) = (err (write_metadata_failed e), w)
  after_metadata change (ok _, w) =
      (ok (record { id = patch_path change; url = codes "file://" ++ patch_path change }), w)

  unfoldable pub write_metadata : Change → Result Text Text → W → Result DeliverError Ref × W
  unfolding after_metadata
  write_metadata change (err e) w = (err (marshal_failed e), w)
  write_metadata change (ok bytes) w =
      after_metadata change (l.system.write_file (meta_path change) bytes w)

  unfoldable pub after_patch : Change → Result Text (Unit {0}) × W → Result DeliverError Ref × W
  unfolding write_metadata
  after_patch change (err e, w) = (err (write_patch_failed e), w)
  after_patch change (ok _, w) =
      write_metadata change (l.system.marshal (metadata_of change (l.system.now w))) w

  unfoldable pub after_mkdir : Change → Result Text (Unit {0}) × W → Result DeliverError Ref × W
  unfolding after_patch
  after_mkdir change (err e, w) = (err (mkdir_failed e), w)
  after_mkdir change (ok _, w) =
      after_patch change (l.system.write_file (patch_path change) change.patch w)

  unfoldable pub deliver : Change → W → Result DeliverError Ref × W
  unfolding after_mkdir
  deliver change w =
      if is_empty (trim_space change.file_path)
      then (err path_required, w)
      else (if is_empty change.patch
          then (err patch_empty, w)
          else after_mkdir change (l.system.mkdir_all l.dir w))
