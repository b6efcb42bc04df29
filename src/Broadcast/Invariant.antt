-- ===== src/Broadcast/Invariant.antt =====
-- What holds of the state of `Run` in every round, against the messages received so far.
mod Defs
mod Handlers
mod Rounds
pub use Defs.*
pub use Handlers.*
pub use Rounds.*
