-- ===== src/ZoxFs.antt =====
-- lab7: a file system kept in one host file of FS_FILE_CLUSTERS_COUNT clusters.
pub mod Bytes
pub mod Cluster
pub mod Context
pub mod Directory
pub mod Lookup
pub mod Create
pub mod Paths
pub mod Size
pub mod Remove
pub mod Unlink
pub mod Load
pub mod Move
pub mod Init
pub mod Shell
pub mod Fields
pub mod Steps
pub mod Free
pub mod Blocks
pub mod Entries
pub mod Names
pub mod Valid
pub mod Mkdir
mod Tests
mod Witnesses
