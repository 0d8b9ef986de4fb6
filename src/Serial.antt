-- ===== src/Serial.antt =====
-- The serial console: write.c of stages 3, 4 and 5 and of loader_protected. A string is the list of
-- its bytes; the terminator is the first 0 or the end of the list.
pub mod Defs
pub mod Protected
pub mod Long
pub mod Agree
pub mod Uart
pub mod Sends
pub mod Transmit
pub mod Reversed
pub mod Ports
pub mod Calls
