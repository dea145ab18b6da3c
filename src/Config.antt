-- ===== src/Config.antt =====
-- internal/cli/daemon_config.go, config_validate.go and daemon_role_merge.go: the daemon's
-- configuration. A pointer is an `Option`, a missing YAML string is "", and a nil slice is told
-- from an empty one only where the code does so (`AgentEntry.path_patterns`). A float64 is its
-- IEEE 754 bit pattern.
mod Types
pub mod Overlay
pub mod Validate
pub mod Load
pub mod Roles
pub use Types.*
