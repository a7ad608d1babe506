-- ===== src/Tests.antt =====
-- The theorems at concrete inputs: a toy version of the packages, a file of nine bytes, and what
-- sender and receiver make of it.
mod Samples
mod Transfers
mod Parts
mod Daemon
mod Reorder
mod Telemetry
mod Datagrams
mod Rs
mod Adaptive
mod Access
mod Parity
mod Pipeline
mod Multipath
mod Autopilot
