-- ===== src/Api.antt =====
-- src/mlat_reference/api/rest_api.py: who may ask for what.
pub mod Access
pub mod Recent
mod Examples
