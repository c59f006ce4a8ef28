-- ===== src/Codec.antt =====
-- Byte-level codecs of pkg/fgo/row_codec.go and pkg/fgo/record_batch.go. A byte is a number below
-- 256, and a byte slice is a list of them.
pub mod Varint
pub mod Bytes
pub mod Crc
