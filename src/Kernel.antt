-- ===== src/Kernel.antt =====
-- emergence/kernel/kernel.py and emergence/kernel/supervisor.py over the components that they drive.
mod Context
pub mod Wake
pub mod Supervisor
pub mod Publish
pub mod Spawn
pub mod Dispatch
pub mod Failure
pub mod Revival
pub mod Newborn
pub mod Completion
pub mod Kept
pub mod Retries
pub mod Examples
unfoldable pub use Context.*
