-- ===== src/FlowFilter.antt =====
-- segments/filter/flowfilter: the filter language's evaluation and the segment that applies it.
pub mod Nodes
pub mod Leaves
pub mod Groups
pub mod Walk
pub mod Meaning
pub mod Run
mod Tests
