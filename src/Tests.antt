-- ===== src/Tests.antt =====
-- Concrete runs, and the theorems at concrete inputs.
mod Tunnel
mod Routes
mod Registry
mod Repairs
mod Lines
mod Monitor
mod Geo
mod Updates
mod Startup
mod Sweeps
mod Dns
mod Integrity
mod Leak
