-- ===== src/Aggregate.antt =====
-- skipzfp/aggregate.py: COUNT, SUM and AVG of the values in a range, with bounds for the values before
-- compression, and the C functions that it calls.
pub mod Kernel
pub mod Stream
pub mod Combine
pub mod Run
