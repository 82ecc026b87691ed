-- ===== src/Codec.antt =====
-- skipzfp/codec.py: the codec and the zone map that write_meta stores.
pub mod Config
pub mod Nibbles
pub mod MetaPack
pub mod Source
pub mod Units
pub mod Encode
pub mod Pack
pub mod ZoneMap
pub mod ErrorCodes
pub mod WriteMeta
