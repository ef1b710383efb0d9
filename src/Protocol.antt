-- ===== src/Protocol.antt =====
-- ms605/protocol.py: the frame format, its checksum, message numbers, chunking and reassembly.
pub mod Crc
pub mod Frame
pub mod MsgId
pub mod Chunks
pub mod Reassembler
mod Tests
