-- ===== src/Dhcp.antt =====
-- pkg/subnet/dhcpserver: the DHCP server of a subnet.
pub mod Client
pub mod Bindings
pub mod Lease
pub mod Status
pub mod Report
pub mod Deliver
pub mod Interface
pub mod Config
pub mod Start
