-- ===== src/Coder.antt =====
-- rocket/rocket/net/coder: the TinyPB wire format, its encoder and its decoder.
pub mod Protocol
pub mod Encode
pub mod Decode
pub mod Reads
pub mod Parse
pub mod Frames
pub mod Round
pub mod Stream
pub mod Hang
pub mod Ends
pub mod Garbage
pub mod Pieces
pub mod StringCoder
