-- ===== src/Protocol.antt =====
-- The package protocol: the requests and responses of the JSON-RPC methods and their validation.
pub mod Cursor
pub mod Pagination
pub mod TopicFilter
pub mod EventFilter
