-- ===== src/Codec.antt =====
-- The audio codecs of pkg/codec.
pub mod Adpcm
pub mod G711
