-- ===== src/LogSpace.antt =====
-- The log spaces of src/log/log_space_base.* and src/log/log_space.*: one physical log as each kind
-- of node keeps it.
pub mod Data
pub mod Base
pub mod Progress
pub mod Replay
pub mod Delivery
pub mod Order
pub mod Stall
pub mod Producer
pub mod Storage
pub mod Primary
pub mod Collection
pub mod Tests
