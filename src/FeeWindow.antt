-- ===== src/FeeWindow.antt =====
-- cmd/stellar-rpc/internal/feewindow/feewindow.go: the fees of the retained ledgers and their
-- distribution. The lock makes each method one step. The children model `computeFeeDistribution`
-- (`Distribution`), the collection of a ledger's fees and `IngestFees` (`Ingest`), and prove what
-- they compute.
pub mod Distribution
pub mod Append
pub mod Ingest
mod Tests
