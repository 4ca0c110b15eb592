-- ===== src/Trial.antt =====
-- tools/mlat/receiver_config.py: the configuration of a field trial.
pub mod Clock
pub mod Calibration
pub mod Evidence
pub mod Qualified
pub mod Usable
pub mod Config
pub mod Ready
pub mod Signal
pub mod Heard
mod Examples
