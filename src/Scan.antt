-- ===== src/Scan.antt =====
-- The log scanner of pkg/fgo: the bounds of a bounded scan, and the scanner itself.
pub mod Bounds
pub mod Scanner
