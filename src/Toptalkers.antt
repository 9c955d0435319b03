-- ===== src/Toptalkers.antt =====
-- segments/analysis/toptalkers_metrics: traffic levels for each address over a sliding window.
pub mod Record
pub mod Database
pub mod Metrics
pub mod Params
mod Tests
