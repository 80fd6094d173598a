-- ===== src/Network.antt =====
-- cmd/stellar-rpc/internal/network: the limiters that stand before the request handlers.
pub mod Backlog
pub mod Duration
