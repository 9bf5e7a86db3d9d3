-- ===== src/Domain/Levels.antt =====
-- internal/domain/domain.go: the ordered severity levels. `Severity` is a Go int, so a value read
-- from JSON may be none of the constants.
pub mod Laws
use cloud_sre_agent.Prelude.{
  Bool, ◌&&◌, List, [], ◌∷◌, map, Text, codes, one_of, to_lower, trim_space, if◌then◌else◌,
}
use cloud_sre_agent.Prelude.Int.{ℤ, pos, leb_ℤ, eq_ℤ}

abbrev pub Severity : Type 0
Severity = ℤ

abbrev pub severity_unknown : Severity
severity_unknown = pos 0

abbrev pub severity_debug : Severity
severity_debug = pos 1

abbrev pub severity_info : Severity
severity_info = pos 2

abbrev pub severity_warning : Severity
severity_warning = pos 3

abbrev pub severity_error : Severity
severity_error = pos 4

abbrev pub severity_critical : Severity
severity_critical = pos 5

abbrev pub severity_labels : List Text
severity_labels =
    codes "debug" ∷ codes "info" ∷ codes "warning" ∷ codes "error" ∷ codes "critical" ∷ []

-- `Severity.String`
unfoldable pub string : Severity → Text
string s =
    if eq_ℤ s severity_debug
    then codes "debug"
    else if eq_ℤ s severity_info
    then codes "info"
    else if eq_ℤ s severity_warning
    then codes "warning"
    else if eq_ℤ s severity_error
    then codes "error"
    else if eq_ℤ s severity_critical
    then codes "critical"
    else codes "unknown"

-- `Severity.Valid`
unfoldable pub valid : Severity → Bool
valid s = leb_ℤ severity_unknown s && leb_ℤ s severity_critical

-- The `switch` of `ParseSeverity`, over the trimmed label in lower case.
unfoldable pub severity_of_label : Text → Severity
severity_of_label s =
    if one_of s (codes "debug" ∷ codes "trace" ∷ [])
    then severity_debug
    else if one_of s (codes "info" ∷ codes "notice" ∷ [])
    then severity_info
    else if one_of s (codes "warning" ∷ codes "warn" ∷ [])
    then severity_warning
    else if one_of s (codes "error" ∷ codes "err" ∷ [])
    then severity_error
    else if one_of s (
        codes "critical"
        ∷ codes "fatal"
        ∷ codes "alert"
        ∷ codes "emergency"
        ∷ codes "panic"
        ∷ codes "emerg"
        ∷ [])
    then severity_critical
    else severity_unknown

-- `ParseSeverity`
unfoldable pub parse_severity : Text → Severity
unfolding severity_of_label to_lower trim_space
parse_severity label = severity_of_label (to_lower (trim_space label))
