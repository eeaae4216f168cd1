-- ===== src/Examples.antt =====
-- Concrete inputs at which the theorems apply.
mod Ranges
mod Hooks
mod Bindings
mod Leases
mod Endpoints
mod Hosts
mod Checks
mod Ssh
mod Servers
mod Starts
mod Parts
