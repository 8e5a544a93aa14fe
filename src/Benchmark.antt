-- ===== src/Benchmark.antt =====
-- src/benchmark_runner.cpp: the scalar checksum, the measurements before and after the tuning, and their table.
pub mod Checksum
pub mod Metrics
pub mod Table
pub mod Run
