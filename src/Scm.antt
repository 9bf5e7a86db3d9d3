-- ===== src/Scm.antt =====
-- internal/scm/port.go: a deliverable change and the reference to a delivery.
pub mod Naming
pub mod GitHub
pub mod GitLab
pub mod Local
use cloud_sre_agent.Prelude.{Text}
use cloud_sre_agent.Domain.Levels.{Severity}

pub record Change : Type 0 where
  pub file_path : Text
  pub patch : Text
  pub description : Text
  pub severity : Severity

pub record Ref : Type 0 where
  pub id : Text
  pub url : Text
