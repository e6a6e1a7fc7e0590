-- ===== src/Examples.antt =====
-- Concrete inputs, and the theorems at them.
pub mod Numbers
mod Cycles
mod Daemons
mod Intervals
mod Lifetimes
mod Deletions
mod Flushes
mod Graphites
mod Packets
mod Pipelines
mod Proxies
mod Relays
mod Streams
mod Timers
