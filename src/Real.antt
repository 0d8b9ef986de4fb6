-- ===== src/Real.antt =====
-- The machine that stages 1 and 2 run on, in real mode: the BIOS and the ports are a parameter, a
-- function of all that was done before; the globals are those that the two stages write.
mod State
mod Monad
pub use State.*
unfoldable pub use Monad.*
