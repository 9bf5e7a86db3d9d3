-- ===== src/Scm/Naming.antt =====
-- internal/scm/github/github.go: the names of a delivery, which are derived from the change alone:
-- its branch, its commit message and its title. Package gitlab spells the same functions out again.
pub mod Laws
use cloud_sre_agent.Prelude.{
  ℕ, Bool, true, false, not, ◌&&◌, ◌||◌, List, [], ◌∷◌, ◌++◌, Text, codes, if◌then◌else◌, leb, ◌==◌,
  is_empty, trim, trim_space,
}
use cloud_sre_agent.Prelude.Int.{eq_ℤ}
use cloud_sre_agent.Domain.Levels.{Severity, severity_unknown, string}
use cloud_sre_agent.Scm.{Change}

-- The class `[a-zA-Z0-9._-]`.
unfoldable pub is_slug_byte : ℕ → Bool
is_slug_byte c =
    (leb 97 c && leb c 122)
    || (leb 65 c && leb c 90)
    || (leb 48 c && leb c 57)
    || (c == b'.')
    || (c == b'_')
    || (c == b'-')

unfoldable pub is_hyphen : ℕ → Bool
is_hyphen c = c == b'-'

-- `slugSeparators.ReplaceAllString(path, "-")`: a run of other bytes becomes one hyphen. The flag
-- says that the byte before belongs to such a run.
unfoldable pub replace_separators : Bool → Text → Text
replace_separators in_run [] = []
replace_separators in_run (c ∷ s) =
    let after_safe = replace_separators false s in
    let after_other = replace_separators true s in
    if is_slug_byte c then c ∷ after_safe else (if in_run then after_other else b'-' ∷ after_other)

unfoldable pub or_change : Text → Text
or_change [] = codes "change"
or_change (c ∷ s) = c ∷ s

unfoldable pub slugify : Text → Text
unfolding replace_separators or_change
slugify path = or_change (trim is_hyphen (replace_separators false path))

-- The first line of a text, and the lines after it.
unfoldable pub split_lines : Text → List Text
split_lines [] = [] ∷ []
split_lines (c ∷ s) = cons_line (c == 10) c (split_lines s)
  where
    cons_line : Bool → ℕ → List Text → List Text
    cons_line true c ls = [] ∷ ls
    cons_line false c [] = (c ∷ []) ∷ []
    cons_line false c (l ∷ ls) = (c ∷ l) ∷ ls

unfoldable pub first_nonempty : List Text → Text
first_nonempty [] = []
first_nonempty (l ∷ ls) =
    let rest = first_nonempty ls in if is_empty (trim_space l) then rest else trim_space l

unfoldable pub first_line : Text → Text
unfolding split_lines first_nonempty
first_line s = first_nonempty (split_lines s)

unfoldable pub branch_name : Change → Text
branch_name change = codes "sre-agent/" ++ slugify change.file_path

unfoldable pub commit_message : Change → Text
commit_message change =
    codes "fix: "
    ++ (if is_empty (first_line change.description)
        then codes "update " ++ change.file_path
        else first_line change.description)

unfoldable pub severity_label : Severity → Text
severity_label s = if eq_ℤ s severity_unknown then codes "remediation" else string s

unfoldable pub pr_title : Change → Text
unfolding severity_label
pr_title change =
    codes "["
    ++ (severity_label change.severity
        ++ (codes "] "
            ++ (if is_empty (first_line change.description)
                then codes "remediate " ++ change.file_path
                else first_line change.description)))
