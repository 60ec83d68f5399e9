-- ===== src/Runtime.antt =====
-- src/tms/runtime and bootstrap.py.
pub mod Commands
pub mod DbWriter
pub mod EventAggregator
pub mod EventBus
pub mod CommandBus
pub mod ResourceGovernor
pub mod StateStore
pub mod App
