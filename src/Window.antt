-- ===== src/Window.antt =====
-- internal/window/window.go: maintenance windows, evaluated at an instant and asked about a node.
mod Evaluate
pub mod Opening
pub mod Covering
unfoldable pub use Evaluate.*
