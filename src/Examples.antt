-- ===== src/Examples.antt =====
-- The theorems at concrete inputs.
mod Rpc
mod Files
mod Locks
mod Calls
mod Polls
mod Testers
mod Tests
mod Flights
mod Listeners
mod Containers
mod Queues
mod Pools
mod Windows
mod Service
mod Wires
