-- ===== src/NewTonopah/Safety.antt =====
-- No notification of one of the two paths ends in a failed assert, a NULL pointer, an access past
-- the array of paths or abort(): the invariants that this rests on, and that each step keeps them.
mod Intervals
mod Parts
mod Notify
pub use Intervals.*
pub use Parts.*
pub use Notify.*
