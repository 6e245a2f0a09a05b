-- ===== src/Execution/Executor.antt =====
-- execution/base_executor.py, subprocess_executor.py and cloud_run_executor.py: the queue, the
-- handles, and the life of a run. The lock makes each method one step, so a method is a function
-- on the world of its instance. A raise ends the method and keeps what was done before it.
mod Step
mod Failing
mod Pumping
mod Recovery
pub mod Keeping
pub mod Settled
pub mod SettledPump
pub mod Stored
pub mod StoredPump
pub mod Safety
pub mod Capacity
pub mod Exclusive
unfoldable pub use Step.*
unfoldable pub use Failing.*
unfoldable pub use Pumping.*
unfoldable pub use Recovery.*
