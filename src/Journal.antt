-- ===== src/Journal.antt =====
-- journal.py, the append-only run journal: its events (Events), the pure fold (Fold) and what the
-- fold keeps (Lifecycle, Ledger, Turns).
pub mod Events
pub mod Fold
pub mod Lifecycle
pub mod Ledger
pub mod Turns
pub mod Read
pub mod Write
pub mod Body
mod Examples
