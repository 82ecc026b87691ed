-- ===== src/Query.antt =====
-- skipzfp/query.py, with the functions of skipzfp/csrc/query.c that it calls.
pub mod Merge
pub mod Read
pub mod Count
pub mod Stream
pub mod Bounds
pub mod Classify
pub mod Plan
pub mod Options
pub mod Meta
pub mod Layers
pub mod Result
pub mod Run
pub mod Api
pub mod Budget
