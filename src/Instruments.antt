-- ===== src/Instruments.antt =====
-- risk/instruments.py: what a broker's symbol is, which orders it takes, and what its spread costs.
mod Defs
pub mod Spread
pub mod Tradable
unfoldable pub use Defs.*
