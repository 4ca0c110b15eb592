-- ===== src/Registry.antt =====
-- src/ckb_registry/record.py: identities, records, their validation and their JSON form.
pub mod Identity
pub mod Record
pub mod Validate
pub mod Fields
pub mod WellFormed
pub mod Lifecycle
pub mod Json
pub mod RoundTrip
pub mod Decode
pub mod Strict
pub mod TypeId
pub mod Examples
