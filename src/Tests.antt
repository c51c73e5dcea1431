-- ===== src/Tests.antt =====
-- The theorems at concrete inputs.
mod Instances
mod Formats
mod Broadcasts
mod Chains
mod Streams
mod Receivers
mod Verdicts
mod Libraries
mod Links
mod Deliveries
mod Services
mod Networks
mod Demos
mod Groups
mod Clients
