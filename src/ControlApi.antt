-- ===== src/ControlApi.antt =====
-- internal/controlapi/controlapi.go: the HTTP API of the control plane.
pub mod Types
pub mod Handlers
pub mod Middleware
pub mod Admin
pub mod Issuing
pub mod Reports
pub mod Routes
pub mod Tests
