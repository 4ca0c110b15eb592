-- ===== src/Store.antt =====
-- src/mlat_reference/database/database.py and the broadcaster of
-- src/mlat_reference/api/rest_api.py.
pub mod Positions
pub mod Invariant
pub mod Broadcast
pub mod Delivery
pub mod Lookup
pub mod Receivers
pub mod Inventory
pub mod Examples
