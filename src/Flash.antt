-- ===== src/Flash.antt =====
-- src/main.c: programming a cartridge's flash chip.
pub mod Bus
pub mod Wait
pub mod Loops
pub mod Agb
pub mod Dmg
pub mod Program
pub mod Resume
pub mod Chunks
pub mod Streaming
pub mod Deadline
pub mod Image
pub mod Placed
pub mod Tests
