-- ===== src/Discovery.antt =====
-- src/ckb_registry/discovery.py: the search of the registry's cells, their reading, the quarantine
-- of repeated identities and the validity policy.
pub mod Receiver
pub mod Cells
pub mod Peers
pub mod Quarantine
pub mod Pages
pub mod Discover
pub mod Sighted
pub mod Origin
pub mod Admitted
pub mod Sound
pub mod Complete
mod Examples
