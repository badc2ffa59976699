-- ===== src/Usb.antt =====
-- src/usb.c: the USB device layer.
pub mod Copy
pub mod Copying
pub mod Receive
pub mod Transmit
pub mod Produce
pub mod Complete
pub mod Owed
pub mod Pump
pub mod Onward
pub mod Delivery
pub mod Drained
pub mod Stale
pub mod Handing
pub mod Spent
pub mod Send
pub mod Sending
pub mod Stopped
pub mod Fifo
pub mod Ring
pub mod Queue
pub mod Drain
pub mod Tests
pub mod Control
pub mod Interrupt
