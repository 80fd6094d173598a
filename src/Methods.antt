-- ===== src/Methods.antt =====
-- The handlers of the JSON-RPC methods (cmd/stellar-rpc/internal/methods).
pub mod GetLedgers
pub mod GetEvents
pub mod Transactions
pub mod Simulate
