-- ===== src/Storage.antt =====
-- Audio files on the local disk and in S3: internal/storage. The local disk is a map from
-- paths below the audio directory, with slashes, to files.
pub mod Local
pub mod Paths
pub mod Pruner
pub mod Entries
pub mod Totals
pub mod Evictions
pub mod Limits
pub mod Tiered
pub mod Durable
pub mod Reconciler
pub mod Backed
pub mod Uploads
pub mod Inside
pub mod Tests
