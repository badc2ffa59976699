-- ===== src/Usb/Pump.antt =====
-- src/usb.c: `tx_pump` puts the next packet up, and loses and repeats nothing.
mod Up
mod Ring
mod Region
mod Pair
mod Idle
pub use Up.*
pub use Ring.*
pub use Region.*
pub use Pair.*
pub use Idle.*
