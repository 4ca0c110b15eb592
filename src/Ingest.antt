-- ===== src/Ingest.antt =====
-- src/mlat_reference/ingest: the network client, which keeps the active receivers and starts the
-- feeds, and the reading of feed records.
pub mod Strip
pub mod Transport
pub mod Client
pub mod Feed
pub mod Connections
pub mod Receivers
pub mod Refresh
pub mod Strict
pub mod Permitted
pub mod Bound
pub mod Examples
mod FeedExamples
