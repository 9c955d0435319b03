-- ===== src/Modify.antt =====
-- segments/modify and segments/filter/drop: segments that change or drop single flows.
pub mod Normalize
pub mod AddCid
pub mod AddNetId
pub mod DropAll
pub mod RemoteAddress
pub mod Anonymize
pub mod ProtoMap
pub mod PrefixLists
pub mod AddrStrings
pub mod SyncTimestamps
mod Tests
mod NamesTests
