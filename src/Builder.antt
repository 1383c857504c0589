-- ===== src/Builder.antt =====
-- knight/src/builder: the block builder's data and its REST interface.
pub mod Pending
pub mod Bundle
pub mod TxResult
pub mod Result
pub mod RestClient
pub mod PendingFeed
