-- ===== src/Proto.antt =====
-- src/proto.c, include/proto.h: the FlashGBX command dispatcher.
pub mod Command
pub mod State
pub mod Variable
pub mod Blob
pub mod Execute
pub mod Payload
pub mod Feed
pub mod Clamp
pub mod Parsing
pub mod Copying
pub mod Bulk
pub mod Stream
pub mod Absorb
pub mod Arguments
pub mod Framing
pub mod Replies
pub mod Quiet
pub mod Progress
pub mod Events
pub mod VariableLaws
pub mod BlobLaws
pub mod Safety
pub mod Keeps
pub mod Refusal
pub mod Batch
pub mod Tests
pub mod Within
