-- ===== src/Gates.antt =====
-- gates/: the runtime of the turn gates, and the gates that it runs when a turn lands.
pub mod Runtime
pub mod Rounds
pub mod Sound
pub mod Order
pub mod Degeneracy
pub mod Fabrication
pub mod Turns
pub mod Halting
mod Examples
