-- ===== src/Cidr.antt =====
-- pkg/kt/service/cluster/cidr.go: address ranges as arrays of 32 cells. The children hold the
-- conversion of text, the search for the ranges, and the proofs.
pub mod Options
pub mod Bins
pub mod Convert
pub mod Ranges
mod Tests
