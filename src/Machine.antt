-- ===== src/Machine.antt =====
-- The machine that the protected-mode stages run on: the port instructions of shared/outin.h, the
-- globals of shared/ that the modelled code reads and writes, and the state monad over them.
-- The hardware is a parameter: what a port read returns, when the floppy controller interrupts and
-- what its DMA transfer leaves in memory are functions of everything that was done before.
mod State
mod Monad
mod Laws
mod Ports
mod Keeping
pub use State.*
unfoldable pub use Monad.*
pub use Laws.*
pub use Ports.*
pub use Keeping.*
