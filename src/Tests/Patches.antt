-- ===== src/Tests/Patches.antt =====
-- Runs of the validator of patches, with tools that find nothing, and a directory that `mkdir_temp`
-- names by a number.
use cloud_sre_agent.Prelude.{
  ℕ, ◌+◌, ◌≡◌, ◌↔◌, refl, true, [], ◌∷◌, ◌++◌, none, ok, Text, codes, text_eq, to_lower,
  to_lower_byte, trim_space, trim, trim_left, trim_right, is_space,
}
use cloud_sre_agent.PatchValidator.{Tools, State, validate}
use cloud_sre_agent.PatchValidator.Laws.Gates.{accepts, IsVetted, validate-accepts_iff}
use cloud_sre_agent.PatchValidator.Laws.Confinement.{IsTidy, validate-IsTidy}

abbrev tools : Tools ℕ
tools = record {
  parse_go = λ s. none;
  mkdir_temp = λ w. (ok (codes "/tmp/" ++ w ∷ []), w + 1);
  write_file = λ path content w. (none, w);
  remove_all = λ dir w. w;
  run_command = λ c w. (record { error = none; output = [] }, w);
  getenv = λ name w. codes "/usr/bin";
  join_path = λ a b. a ++ (codes "/" ++ b);
  quote = λ s. s;
}

abbrev start : State ℕ
start = record { world = 49; acts = [] }

abbrev patch : Text
patch = codes "package db"

is_go : text_eq (to_lower (trim_space (codes " Go "))) (codes "go") ≡ true
unfolding text_eq to_lower to_lower_byte trim_space trim trim_left trim_right is_space
is_go = refl

validate-accepts_iff_example :
    (accepts (validate tools patch (codes " Go ") start).0 ≡ true) ↔ IsVetted tools patch start
validate-accepts_iff_example = validate-accepts_iff tools patch (codes " Go ") start is_go

validate-IsTidy_example : IsTidy tools patch start (validate tools patch (codes "go") start).1
validate-IsTidy_example = validate-IsTidy tools patch (codes "go") start
