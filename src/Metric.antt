-- ===== src/Metric.antt =====
-- src/ssimulacra2.cc and src/ssimulacra2_main.cc: the metric and its command line.
pub mod Pixels
pub mod Maps
pub mod Score
pub mod Compute
pub mod Tool
