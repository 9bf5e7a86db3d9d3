-- ===== src/Domain/Levels/Laws.antt =====
-- Printing and reading severities.
use cloud_sre_agent.Prelude.{zero, suc, ◌≡◌, refl, true, Text, one_of, arith}
use cloud_sre_agent.Prelude.Int.{pos, negsuc}
use cloud_sre_agent.Domain.Levels.{Severity, string, valid, severity_of_label, parse_severity}

-- A valid severity survives `String` followed by `ParseSeverity`.
pub parse_severity-string : (s : Severity) → valid s ≡ true → parse_severity (string s) ≡ s
unfolding valid string parse_severity one_of
parse_severity-string (pos zero) h = refl
parse_severity-string (pos (suc zero)) h = refl
parse_severity-string (pos (suc (suc zero))) h = refl
parse_severity-string (pos (suc (suc (suc zero)))) h = refl
parse_severity-string (pos (suc (suc (suc (suc zero))))) h = refl
parse_severity-string (pos (suc (suc (suc (suc (suc zero)))))) h = refl
parse_severity-string (pos (suc (suc (suc (suc (suc (suc n))))))) h = absurd (ground arith)
parse_severity-string (negsuc n) h = absurd (ground arith)

severity_of_label-valid : (s : Text) → valid (severity_of_label s) ≡ true
unfolding severity_of_label valid
severity_of_label-valid s = ground arith

-- Whatever the label, `ParseSeverity` returns a severity that `Valid` accepts.
pub parse_severity-valid : (label : Text) → valid (parse_severity label) ≡ true
unfolding parse_severity
parse_severity-valid label = severity_of_label-valid (_)
