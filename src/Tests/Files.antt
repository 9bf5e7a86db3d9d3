-- ===== src/Tests/Files.antt =====
-- A run of the delivery to a directory, with a file system in memory.
use cloud_sre_agent.Prelude.{
  ◌≡◌, ◌≢◌, refl, true, false, ◌++◌, Option, none, some, ok, Text, codes, text_eq, text_eq_iff,
  trim, trim_space, if◌then◌else◌, arith,
}
use cloud_sre_agent.Domain.Levels.{severity_error}
use cloud_sre_agent.Scm.{Change, Ref}
use cloud_sre_agent.Scm.Naming.{slugify, is_slug_byte, is_hyphen}
use cloud_sre_agent.Scm.Local.{System, LocalPatch, deliver}
use cloud_sre_agent.Scm.Local.Laws.{
  IsFileSystem, IsWritten, patch_file_of, sidecar_of, deliver-IsWritten,
}

abbrev Files : Type 0
Files = Text → Option Text

abbrev file : Files → Text → Option Text
file w = w

abbrev memory : System Files
memory = record {
  mkdir_all = λ dir w. (ok tt, w);
  write_file = λ p c w. (ok tt, λ x. if text_eq x p then some c else w x);
  now = λ w. 7;
  marshal = λ m. ok m.file_path;
  join_path = λ dir n. dir ++ (codes "/" ++ n);
  base_name = λ p. p;
}

memory-IsFileSystem : IsFileSystem memory file
memory-IsFileSystem = record {
  write_file-content = λ p c w h. ground (arith, text_eq_iff p p);
  write_file-other = λ p c w x n. ground (arith, n, text_eq_iff x p);
}

abbrev local : LocalPatch Files
local = record { system = memory; dir = codes "out" }

abbrev empty : Files
empty x = none

abbrev change : Change
change = record {
  file_path = codes "db/pool.go";
  patch = codes "package db";
  description = codes "raise the limit";
  severity = severity_error;
}

paths_apart : patch_file_of local file change ≢ sidecar_of local file change
unfolding slugify is_slug_byte text_eq trim is_hyphen
paths_apart h =
    let same : false ≡ true =
      (text_eq_iff (patch_file_of local file change) (sidecar_of local file change)).1 h in
    ground (arith, same)

delivered_ref : (ref : Ref) × ((deliver local change empty).0 ≡ ok ref)
unfolding deliver trim_space
delivered_ref = (_, refl)

deliver-IsWritten_example :
    IsWritten local file change delivered_ref.0 7 (deliver local change empty).1
deliver-IsWritten_example =
    deliver-IsWritten local file memory-IsFileSystem change paths_apart empty delivered_ref.0
      delivered_ref.1

-- Two files whose paths differ in a separator only share their slug.
slug_collision_test : slugify (codes "db/pool.go") ≡ slugify (codes "db-pool.go")
unfolding slugify is_slug_byte
slug_collision_test = refl
