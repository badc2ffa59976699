-- ===== src/Glue.antt =====
-- src/lk_glue.c: the seam between the protocol parser and the LK command core.
pub mod Seam
pub mod Link
pub mod Mirror
pub mod Dispatch
pub mod Waiting
pub mod Stream
pub mod Guard
pub mod Confine
pub mod Silence
pub mod Admission
pub mod Arriving
pub mod Prompt
pub mod Refusal
pub mod Tests
