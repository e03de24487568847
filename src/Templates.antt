-- ===== src/Templates.antt =====
-- internal/templates/templates.go: the two `MarshalINI` methods, the checks in front of the templates,
-- and the templates with their rendering.
pub mod WireGuard
pub mod Checks
pub mod Render
pub mod Hook
pub mod Readme
pub mod Initramfs
pub mod SetupScript
pub mod Embedded
