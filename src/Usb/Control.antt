-- ===== src/Usb/Control.antt =====
-- src/usb.c: endpoint 0.
pub mod Descriptors
pub mod Setup
pub mod Stages
pub mod Routing
pub mod Reading
pub mod Address
pub mod Coding
pub mod Tests
