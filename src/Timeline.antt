-- ===== src/Timeline.antt =====
-- libs/symbol_timeline: the history of each symbol of a project.
pub mod Events
pub mod Differ
pub mod Rename
pub mod Store
pub mod Reconcile
pub mod Sinks
pub mod Bracket
pub mod Capture
pub mod Snapshots
pub mod TagWatch
pub mod Query
mod Tests
mod StoreTests
mod CaptureTests
mod QueryTests
