-- ===== src/Scm/Local/Laws.antt =====
-- What a delivery of internal/scm/local/local.go leaves in the file system.
use cloud_sre_agent.Prelude.{
  ◌≡◌, ◌≢◌, refl, ◌∙◌, ◌++◌, codes, inl, inr, Option, some, Result, ok, err, Text, is_empty, arith,
  Bool-cases, Result-cases, trim_space,
}
use cloud_sre_agent.Domain.{Time}
use cloud_sre_agent.Scm.{Change, Ref}
use cloud_sre_agent.Domain.Levels.{string}
use cloud_sre_agent.Scm.Naming.{slugify}
use cloud_sre_agent.Scm.Local.{
  System, Metadata, LocalPatch, patch_path, meta_path, metadata_of, after_metadata, write_metadata,
  after_patch, after_mkdir, deliver,
}

-- What is documented of `os.WriteFile`, by the view of a file's content: a successful write is seen
-- at its path, and a write leaves the files at other paths.
pub record IsFileSystem {W : Type 0} (system : System W) (file : W → Text → Option Text)
    : Type 0 where
  pub write_file-content :
      (p c : Text) (w : W)
      → (system.write_file p c w).0 ≡ ok tt
      → file (system.write_file p c w).1 p ≡ some c
  pub write_file-other :
      (p c : Text) (w : W) (x : Text) → x ≢ p → file (system.write_file p c w).1 x ≡ file w x

module _ {W : Type 0} (l : LocalPatch W) (file : W → Text → Option Text) where
  -- The two files of a change: the slug of its path, in the directory.
  abbrev pub patch_file_of : Change → Text
  patch_file_of change = l.system.join_path l.dir (slugify change.file_path ++ codes ".patch")

  abbrev pub sidecar_of : Change → Text
  sidecar_of change = l.system.join_path l.dir (slugify change.file_path ++ codes ".meta.json")

  -- What the sidecar says of a change, delivered at a time.
  abbrev pub told_of : Change → Time → Metadata
  told_of change at = record {
    file_path = change.file_path;
    description = change.description;
    severity = string change.severity;
    delivered_at = at;
    patch_file = l.system.base_name (patch_file_of change);
  }

  -- The state right after the patch was written.
  abbrev pub after_writing : Change → W → W
  after_writing change w =
      (l.system.write_file (patch_file_of change) change.patch (l.system.mkdir_all l.dir w).1).1

  -- The patch file holds the patch, and the sidecar what is told of the change at the time of the
  -- clock; the reference names the patch file.
  pub record IsWritten (change : Change) (ref : Ref) (at : Time) (w : W) : Type 0 where
    pub names_patch : ref.id ≡ patch_file_of change
    pub patch_written : file w (patch_file_of change) ≡ some change.patch
    pub bytes : Text
    pub marshalled : l.system.marshal (told_of change at) ≡ ok bytes
    pub sidecar_written : file w (sidecar_of change) ≡ some bytes

module _ {W : Type 0} (l : LocalPatch W) (file : W → Text → Option Text)
    (system : IsFileSystem l.system file) (change : Change)
    (apart : patch_file_of l file change ≢ sidecar_of l file change) where
  after_metadata-ok :
      (r : Result Text (Unit {0}) × W) (ref : Ref)
      → (after_metadata l change r).0 ≡ ok ref
      → (r.0 ≡ ok tt) × (ref.id ≡ patch_path l change) × ((after_metadata l change r).1 ≡ r.1)
  unfolding after_metadata
  after_metadata-ok (ok tt, w) ref h = (refl, ground (arith, h), refl)
  after_metadata-ok (err e, w) ref h = absurd (ground (arith, h))

  write_metadata-IsWritten :
      (at : Time) (bytes : Text) (w : W) (ref : Ref)
      → l.system.marshal (metadata_of l change at) ≡ ok bytes
      → file w (patch_path l change) ≡ some change.patch
      → (write_metadata l change (ok bytes) w).0 ≡ ok ref
      → IsWritten l file change ref at (write_metadata l change (ok bytes) w).1
  unfolding write_metadata patch_path meta_path metadata_of
  write_metadata-IsWritten at bytes w ref m p h =
      let (written, named, same) =
        after_metadata-ok (l.system.write_file (meta_path l change) bytes w) ref h in
      record {
        names_patch = named;
        patch_written = rw same (system.write_file-other _ bytes w _ apart ∙ p);
        bytes = bytes;
        marshalled = m;
        sidecar_written = rw same (system.write_file-content _ bytes w written);
      }

  after_patch-IsWritten :
      (r : Result Text (Unit {0}) × W) (ref : Ref)
      → (r.0 ≡ ok tt → file r.1 (patch_path l change) ≡ some change.patch)
      → (after_patch l change r).0 ≡ ok ref
      → IsWritten l file change ref (l.system.now r.1) (after_patch l change r).1
  unfolding after_patch write_metadata
  after_patch-IsWritten (err e, w) ref seen h = absurd (ground (arith, h))
  after_patch-IsWritten (ok tt, w) ref seen h =
      elim (Result-cases (l.system.marshal (metadata_of l change (l.system.now w)))) [
        | inl (bytes, m) ↦
            rw m (write_metadata-IsWritten (l.system.now w) bytes w ref m (seen refl) (rw m at h))
        | inr (e, m) ↦ absurd (ground (arith, h, m))
      ]

  after_mkdir-IsWritten :
      (r : Result Text (Unit {0}) × W) (ref : Ref)
      → (after_mkdir l change r).0 ≡ ok ref
      → IsWritten l file change ref
          (l.system.now (l.system.write_file (patch_file_of l file change) change.patch r.1).1)
          (after_mkdir l change r).1
  unfolding after_mkdir patch_path
  after_mkdir-IsWritten (err e, w) ref h = absurd (ground (arith, h))
  after_mkdir-IsWritten (ok tt, w) ref h =
      after_patch-IsWritten _ ref (system.write_file-content _ change.patch w) h

  -- On a file system that keeps what is written, and where the names of the patch file and of its
  -- sidecar join to different paths: after a delivery that returns a reference, the reference names
  -- the patch file, which holds the whole patch, and the sidecar holds the path, description and
  -- severity of the change, the name of the patch file and the time right after that was written.
  pub deliver-IsWritten :
      (w : W) (ref : Ref)
      → (deliver l change w).0 ≡ ok ref
      → IsWritten l file change ref
          (l.system.now (after_writing l file change w))
          (deliver l change w).1
  unfolding deliver
  deliver-IsWritten w ref h = elim (Bool-cases (is_empty (trim_space change.file_path))) [
    | inl a ↦ absurd (ground (arith, h, a))
    | inr a ↦ elim (Bool-cases (is_empty change.patch)) [
      | inl b ↦ absurd (ground (arith, h, a, b))
      | inr b ↦ rw (a, b) (after_mkdir-IsWritten _ ref (rw (a, b) at h))
    ]
  ]
