-- ===== src/Correlation.antt =====
-- src/mlat_reference/correlation/correlator.py: the grouping of the signals that several receivers
-- heard of one transmission.
pub mod Signal
pub mod Quality
pub mod Correlator
pub mod Runs
pub mod Candidates
pub mod Once
pub mod Disjoint
pub mod Order
pub mod Sound
pub mod Spread
pub mod Buffer
pub mod Score
pub mod Finds
pub mod Examples
