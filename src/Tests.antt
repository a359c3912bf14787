-- ===== src/Tests.antt =====
-- Runs of the definitions on small inputs, and the theorems at concrete inputs.
mod Editing
mod Machine
mod Consensus
mod Delivery
mod Sessions
mod Replication
mod Elections
mod Diffs
mod Wire
