-- ===== src/Tests.antt =====
-- Small runs of the model: a float format of four numbers, a store of two chunks, and the theorems at
-- inputs where their hypotheses hold.
pub mod Toy
pub mod Example
pub mod Queries
pub mod Bounds
pub mod Steps
pub mod Codecs
pub mod Packing
pub mod Aggregates
pub mod Originals
pub mod ZoneMaps
pub mod Layers
