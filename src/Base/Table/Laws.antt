-- ===== src/Base/Table/Laws.antt =====
-- How the queries on a table read what the writes on it have left.
mod Search
mod Counts
mod Keys
mod Others
pub use Search.*
pub use Counts.*
pub use Keys.*
pub use Others.*
