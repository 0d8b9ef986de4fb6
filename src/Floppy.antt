-- ===== src/Floppy.antt =====
-- The floppy driver: shared/floppy.h, shared/floppy_impl.h and shared/floppy_read.h.
pub mod Types
pub mod Showing
pub mod Unread
pub mod Sensed
pub mod InStep
pub mod Phases
pub mod Manual
pub mod Status
pub mod Fifo
pub mod Block
pub mod BlockLaws
pub mod Irq
pub mod IrqLaws
pub mod Commands
pub mod Read
pub mod Chs
pub mod Check
pub mod Polling
pub mod Delivered
pub mod Delivery
pub mod Sending
pub mod Results
pub mod SectorId
pub mod Observed
pub mod Controller
pub mod Reading
pub mod Copying
pub mod Frames
pub mod Safety
pub mod CopySafety
pub mod Sensing
pub mod Stopping
