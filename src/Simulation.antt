-- ===== src/Simulation.antt =====
-- src/simulation: the simulated sender of the benchmarks and of the demo.
pub mod Sender
pub mod Network
