-- ===== src/Runtime.antt =====
-- src/mlat_reference/base.py and src/mlat_reference/runtime.py.
pub mod State
pub mod Base
pub mod Solve
pub mod Counts
pub mod Stored
pub mod Keys
pub mod Cached
pub mod Refresh
pub mod Current
pub mod Buffered
pub mod SameSignals
pub mod Heard
mod Examples
