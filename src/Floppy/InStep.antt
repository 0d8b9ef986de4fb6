-- ===== src/Floppy/InStep.antt =====
-- All commands of the driver and the phases of the controller.
use toy_bootloader.Machine.{Machine}
