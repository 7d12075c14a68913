-- ===== src/Queues.antt =====
-- bits/src/dispatcher/queue/: the queues between a dispatcher and its executor.
pub mod Fifo
pub mod CostWeighted
pub mod AgePriority
mod Tests
mod AgeTests
