-- ===== src/Net.antt =====
-- The parts of Go's package net that the program calls.
pub mod Ip
pub mod Order
pub mod Parse
pub mod Prefix
pub mod Mac
pub mod Format
mod Checks
