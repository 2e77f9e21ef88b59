-- ===== src/Examples.antt =====
-- Concrete runs: a manager with three chunks in its ring, a small page file and a configuration, on
-- which the theorems about src/ apply.
mod State
mod Adhering
mod Files
mod Quiet
mod Limits
mod Elements
mod Cyclic
mod Filtering
mod Uses
mod Storage
mod Swapping
mod Transfers
mod Settings
mod Sharing
