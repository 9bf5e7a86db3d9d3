-- ===== src/App.antt =====
-- internal/app/app.go: the composition root.
pub mod Build
pub mod Consume
pub mod FanIn
pub mod Run
pub mod Laws
